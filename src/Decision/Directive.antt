-- ===== src/Decision/Directive.antt =====
-- decision.py: a directive that a model writes as `MARK:name:text` is read back as it was written.
use Prim.Native.Nat.{ℕ, suc}
use Prim.Native.Char.{code}
use Prim.Native.String.{String, [], ◌∷◌, ◌++◌}
use Prim.Native.String.append
use mathlib.Core.List.{List}
use multi_bot_agentic.Prelude.{◌≡◌, refl, false, some, nat_beq}
use multi_bot_agentic.Prelude.Text.{strip, is_empty, break_at}
use multi_bot_agentic.Prelude.Split.{split_max}
use multi_bot_agentic.Decision.{parse_request}
use multi_bot_agentic.Decision.Requests.{checked_parts}

-- The text does not contain the separator.
abbrev pub Lacks : ℕ → String → Type 0
Lacks sep [] = Unit
Lacks sep (c ∷ s) = (nat_beq (code c) sep ≡ false) × Lacks sep s

break_at-append : (s t : String) → Lacks b':' s → break_at b':' (s ++ (":" ++ t)) ≡ some (s, t)
unfolding break_at
break_at-append [] t h = rw (append.nil (":" ++ t), append.cons ":" [] t, append.nil t) refl
break_at-append (d ∷ s) t h =
    rw (append.cons d s (":" ++ t), h.0) (rw (break_at-append s t h.1, break_at) refl)

split_max-append :
    (n : ℕ) (s t : String)
    → Lacks b':' s
    → split_max b':' (suc n) (s ++ (":" ++ t)) ≡ List.◌∷◌ s (split_max b':' n t)
unfolding split_max
split_max-append n s t h = rw (break_at-append s t h, split_max) refl

-- A directive written as `MARK:name:text` is parsed into its stripped name and its text, colons of
-- the text included, when the mark and the name contain no colon and neither the name nor the text
-- is blank.
pub parse_request-directive :
    (mark name text : String)
    → Lacks b':' mark
    → Lacks b':' name
    → is_empty (strip name) ≡ false
    → is_empty (strip text) ≡ false
    → parse_request (mark ++ (":" ++ (name ++ (":" ++ text)))) ≡ some (strip name, text)
unfolding parse_request checked_parts split_max
parse_request-directive mark name text hm hn en et =
    rw (split_max-append 1 mark (name ++ (":" ++ text)) hm, split_max-append 0 name text hn)
      (rw (en, et) refl)
