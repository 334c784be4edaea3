-- ===== src/Prelude/Text.antt =====
-- Python's text operations that the program calls, on code points.
use Prim.Native.Nat.{ℕ, zero, suc, ◌/◌, ◌%◌, Ordering}
use Prim.Native.Char.{Char, code}
use Prim.Native.String.{String, [], ◌∷◌, char_at, compare}
use mathlib.Core.Bool.{Bool, true, false, ◌&&◌, ◌||◌}
use mathlib.Core.Option.{Option, none, some}
use multi_bot_agentic.Prelude.Tests.{ltb, leb, nat_beq, if◌then◌else◌}

-- `str.isspace` of one character: the code points that `str.strip()` removes.
unfoldable pub is_space : Char → Bool
is_space c =
    let n = code c in
    (leb 9 n && leb n 13)
    || (leb 28 n && leb n 32)
    || nat_beq n 133
    || nat_beq n 160
    || nat_beq n 5760
    || (leb 8192 n && leb n 8202)
    || nat_beq n 8232
    || nat_beq n 8233
    || nat_beq n 8239
    || nat_beq n 8287
    || nat_beq n 12288

unfoldable pub lstrip : String → String
lstrip [] = []
lstrip (c ∷ s) = if is_space c then lstrip s else c ∷ s

unfoldable pub rstrip : String → String
rstrip [] = []
rstrip (c ∷ s) = elim (rstrip s) [ [] ↦ if is_space c then [] else c ∷ [] | d ∷ r ↦ c ∷ d ∷ r ]

unfoldable pub strip : String → String
unfolding lstrip rstrip is_space
strip s = rstrip (lstrip s)

-- `not s`
abbrev pub is_empty : String → Bool
is_empty [] = true
is_empty (c ∷ s) = false

-- What follows a prefix, if the text starts with it.
unfoldable pub drop_prefix : String → String → Option String
drop_prefix [] s = some s
drop_prefix (c ∷ p) [] = none
drop_prefix (c ∷ p) (d ∷ s) = if nat_beq (code c) (code d) then drop_prefix p s else none

-- `s.startswith(p)`
unfoldable pub starts_with : String → String → Bool
unfolding drop_prefix
starts_with s p = elim (drop_prefix p s) [ none ↦ false | some _ ↦ true ]

-- `s.removeprefix(p)`
unfoldable pub remove_prefix : String → String → String
unfolding drop_prefix
remove_prefix s p = elim (drop_prefix p s) [ none ↦ s | some r ↦ r ]

-- The text before and after the first separator.
unfoldable pub break_at : ℕ → String → Option (String × String)
break_at sep [] = none
break_at sep (c ∷ s) =
    if nat_beq (code c) sep
    then some ([], s)
    else elim (break_at sep s) [ none ↦ none | some (a, b) ↦ some (c ∷ a, b) ]

-- The text before and after the first place where a pattern stands.
unfoldable pub break_on : String → String → Option (String × String)
unfolding drop_prefix
break_on p [] = elim (drop_prefix p []) [ none ↦ none | some r ↦ some ([], r) ]
break_on p (c ∷ s) = elim (drop_prefix p (c ∷ s)) [
  | some r ↦ some ([], r)
  | none ↦ elim (break_on p s) [ none ↦ none | some (a, b) ↦ some (c ∷ a, b) ]
]

-- `str(n)`: the digits, the last first into the accumulator. A number has at most `n + 1` digits.
unfoldable pub decimal : ℕ → ℕ → String → String
decimal zero n acc = acc
decimal (suc fuel) n acc =
    let rest = decimal fuel (n / 10) (char_at "0123456789" (n % 10) ∷ acc) in
    if ltb n 10 then char_at "0123456789" n ∷ acc else rest

unfoldable pub show_nat : ℕ → String
unfolding decimal
show_nat n = decimal (suc n) n []

-- `s <= t`, by code points.
abbrev pub text_le : String → String → Bool
text_le s t = elim (compare s t) [ Ordering.gt ↦ false | _ ↦ true ]

-- `c in text`, for a character.
unfoldable pub has_char : ℕ → String → Bool
has_char c [] = false
has_char c (d ∷ s) = nat_beq (code d) c || has_char c s

-- `".." in text`
unfoldable pub has_dots : String → Bool
unfolding starts_with
has_dots [] = false
has_dots (c ∷ s) = starts_with (c ∷ s) ".." || has_dots s
