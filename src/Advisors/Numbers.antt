-- ===== src/Advisors/Numbers.antt =====
-- Python's floats, as far as the advisors use them: comparisons, and the literals of the source.
use multi_bot_agentic.Prelude.{ℕ, ◌*◌, ◌-◌, ◌^◌, ◌≤◌, ◌<◌, ◌≡◌, Bool, true, false, leb}

-- A literal: `decimal 25 2` is 0.25.
pub record Decimal : Type 0 where
  pub digits : ℕ
  pub places : ℕ

abbrev pub decimal : ℕ → ℕ → Decimal
decimal digits places = record { digits = digits; places = places }

abbrev pub thousandths : Decimal → ℕ
thousandths d = d.digits * 10 ^ (3 - d.places)

-- Three places at most, and six digits: what no float rounds together.
pub record IsShort (d : Decimal) : Type 0 where
  pub few_digits : d.digits < 1000000
  pub few_places : d.places ≤ 3

-- The comparisons of floats. `nan` compares false with every number, itself included.
pub record Numbers : Type 1 where
  pub Number : Type 0
  pub le : Number → Number → Bool
  pub lt : Number → Number → Bool
  pub literal : Decimal → Number
  pub nan : Number
  pub le_trans : (a b c : Number) → le a b ≡ true → le b c ≡ true → le a c ≡ true
  pub lt_le : (a b : Number) → lt a b ≡ true → le a b ≡ true
  pub lt_not_le : (a b : Number) → lt a b ≡ true → le b a ≡ false
  pub nan_le : (a : Number) → le nan a ≡ false
  pub le_nan : (a : Number) → le a nan ≡ false
  pub le_literal :
      (a b : Decimal)
      → IsShort a
      → IsShort b
      → le (literal a) (literal b) ≡ leb (thousandths a) (thousandths b)
