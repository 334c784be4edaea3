-- ===== src/Prelude/Split.antt =====
-- Python's `split` and `join`.
use Prim.Native.Nat.{ℕ, zero, suc}
use Prim.Native.String.{String, ◌++◌}
use mathlib.Core.List.{List, [], ◌∷◌}
use mathlib.Core.Option.{none, some}
use multi_bot_agentic.Prelude.Text.{break_at}

-- `s.split(sep, maxsplit=n)`
unfoldable pub split_max : ℕ → ℕ → String → List String
unfolding break_at
split_max sep zero s = s ∷ []
split_max sep (suc n) s = elim (break_at sep s) [
  | none ↦ s ∷ []
  | some (a, b) ↦ a ∷ split_max sep n b
]

-- `sep.join(parts)`
unfoldable pub join : String → List String → String
join sep [] = ""
join sep (s ∷ []) = s
join sep (s ∷ t ∷ r) = s ++ (sep ++ join sep (t ∷ r))
