-- ===== src/Advisors/Tests.antt =====
-- The advisors over numbers of three decimal places.
use multi_bot_agentic.Prelude.{
  ℕ, ◌≤◌, ◌≡◌, refl, Bool, true, false, leb, ltb, arith, All, some, ◌≢◌,
}
use multi_bot_agentic.Exn.{ok}
use multi_bot_agentic.Advisors.Numbers.{Numbers, decimal, thousandths}
use multi_bot_agentic.Advisors.Bands.{BandStatus, Limits, within, elevated, band_class, band_of}
use multi_bot_agentic.Advisors.Planning.{planner_step_budget_band}
use multi_bot_agentic.Advisors.Severity.{severity, advise-severity, init-nan}
use multi_bot_agentic.Advisors.Shipped.{Serves, shipped, shipped-Serves}

-- Thousandths, and what is no number. `minus a` is -(a + 1) thousandths.
data Fixed : Type 0 where
  no_number : Fixed
  plus minus : ℕ → Fixed

abbrev fixed_le : Fixed → Fixed → Bool
fixed_le (plus a) (plus b) = leb a b
fixed_le (minus a) (plus b) = true
fixed_le (minus a) (minus b) = leb b a
fixed_le _ _ = false

abbrev fixed_lt : Fixed → Fixed → Bool
fixed_lt (plus a) (plus b) = ltb a b
fixed_lt (minus a) (plus b) = true
fixed_lt (minus a) (minus b) = ltb b a
fixed_lt _ _ = false

fixed_le_trans : (a b c : Fixed) → fixed_le a b ≡ true → fixed_le b c ≡ true → fixed_le a c ≡ true
fixed_le_trans (plus a) (plus b) (plus c) h k = ground arith
fixed_le_trans (minus a) (minus b) (minus c) h k = ground arith
fixed_le_trans a b c h k = ground arith

fixed_le_nan : (a : Fixed) → fixed_le a no_number ≡ false
fixed_le_nan a = ground arith

fixed_lt_le : (a b : Fixed) → fixed_lt a b ≡ true → fixed_le a b ≡ true
fixed_lt_le a b h = ground arith

fixed_lt_not_le : (a b : Fixed) → fixed_lt a b ≡ true → fixed_le b a ≡ false
fixed_lt_not_le a b h = ground arith

abbrev fixed : Numbers
fixed = record {
  Number = Fixed;
  le = fixed_le;
  lt = fixed_lt;
  literal = λ d. plus (thousandths d);
  nan = no_number;
  le_trans = fixed_le_trans;
  lt_le = fixed_lt_le;
  lt_not_le = fixed_lt_not_le;
  nan_le = λ a. refl;
  le_nan = fixed_le_nan;
  le_literal = λ a b h k. refl;
}

abbrev default_limits : Limits fixed
default_limits = record { soft = plus 600; hard = plus 900 }

advise-elevated :
    (planner_step_budget_band fixed).advise default_limits " s1 " (plus 750)
    ≡ ok (record {
      session_id = "s1";
      observed = plus 750;
      soft_limit = plus 600;
      hard_limit = plus 900;
      band = elevated;
      requires_human_review = true;
    })
unfolding band_class
advise-elevated = refl

abbrev answer : Fixed → BandStatus fixed
answer x = record {
  session_id = "s1";
  observed = x;
  soft_limit = plus 600;
  hard_limit = plus 900;
  band = band_of fixed default_limits x;
  requires_human_review = true;
}

advise_750 :
    (planner_step_budget_band fixed).advise default_limits "s1" (plus 750) ≡ ok (answer (plus 750))
unfolding band_class
advise_750 = refl

advise-no_number :
    (planner_step_budget_band fixed).advise default_limits "s1" no_number ≡ ok (answer no_number)
unfolding band_class
advise-no_number = refl

advise_990 :
    (planner_step_budget_band fixed).advise default_limits "s1" (plus 990) ≡ ok (answer (plus 990))
unfolding band_class
advise_990 = refl

advise-severity_example : severity (answer (plus 750)).band ≤ severity (answer (plus 990)).band
advise-severity_example =
    advise-severity fixed "PlannerStepBudgetBandAdvisor" "steps_used_ratio" (decimal 6 1)
      (decimal 9 1) default_limits "s1" (plus 750) (plus 990) (answer (plus 750))
      (answer (plus 990)) refl advise_750 advise_990

-- What the advisor answers to 0.75 with a soft limit that is no number.
abbrev nan_answer : BandStatus fixed
nan_answer = record {
  session_id = "s1";
  observed = plus 750;
  soft_limit = no_number;
  hard_limit = plus 900;
  band = elevated;
  requires_human_review = true;
}

advise-nan_limit :
    (planner_step_budget_band fixed).advise
      (record { soft = no_number; hard = plus 900 })
      "s1"
      (plus 750)
    ≡ ok nan_answer
unfolding band_class
advise-nan_limit = refl

init-nan_example :
    ((planner_step_budget_band fixed).init (some no_number) (some (plus 900))
      ≡ ok (record { soft = no_number; hard = plus 900 }))
    × (elevated ≢ within)
init-nan_example =
    init-nan fixed "PlannerStepBudgetBandAdvisor" "steps_used_ratio" (decimal 6 1) (decimal 9 1)
      (plus 900) "s1" (plus 750) nan_answer advise-nan_limit

shipped-Serves_example : All (Serves fixed "s1" (plus 750)) (shipped fixed)
shipped-Serves_example = shipped-Serves fixed "s1" (plus 750)
