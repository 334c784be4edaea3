-- ===== src/Tools/JsonPatch/Pointer.antt =====
-- json_patch_apply.py, `_parse_pointer`: RFC 6901 pointers.
use Prim.Native.Char.{Char, code}
use Prim.Native.String
use Prim.Native.String.{String}
use multi_bot_agentic.Prelude.{ℕ, Bool, true, false, List, [], ◌∷◌, nat_beq, ◌||◌, if◌then◌else◌}
use multi_bot_agentic.Exn.{Exn, Result, ok, err, value_error, ◌>>=◌}

-- What the tool takes from Python: `repr` of a text, and `str.isdecimal` and `int`, which read the
-- decimal digits of every script.
pub record Python : Type 0 where
  pub repr : String → String
  pub is_decimal : String → Bool
  pub number_of : String → Result ℕ

-- `_PatchError`
unfoldable pub patch_error : String → Exn
patch_error m = value_error m

-- A character before the first of the parts.
abbrev pub onto : Char → List String → List String
onto c [] = String.◌∷◌ c String.[] ∷ []
onto c (part ∷ parts) = String.◌∷◌ c part ∷ parts

-- `text.split(sep)`
unfoldable pub split_all : ℕ → String → List String
split_all sep String.[] = "" ∷ []
split_all sep (String.◌∷◌ c s) =
    let parts = split_all sep s in if nat_beq (code c) sep then "" ∷ parts else onto c parts

-- The `while` loop over a token: each `~` is followed by `0` or `1`.
unfoldable pub are_escaped : String → Bool
are_escaped String.[] = true
are_escaped (String.◌∷◌ c String.[]) = if nat_beq (code c) b'~' then false else true
are_escaped (String.◌∷◌ c (String.◌∷◌ d s)) = elim (nat_beq (code c) b'~') [
  | true ↦ if nat_beq (code d) b'0' || nat_beq (code d) b'1' then are_escaped s else false
  | false ↦ are_escaped (String.◌∷◌ d s)
]

-- `text.replace(pair, to)` for a pair of characters and a single one.
unfoldable pub replace_pair : ℕ → ℕ → Char → String → String
replace_pair a b to String.[] = ""
replace_pair a b to (String.◌∷◌ c String.[]) = String.◌∷◌ c String.[]
replace_pair a b to (String.◌∷◌ c (String.◌∷◌ d s)) =
    elim (if nat_beq (code c) a then nat_beq (code d) b else false) [
      | true ↦ String.◌∷◌ to (replace_pair a b to s)
      | false ↦ String.◌∷◌ c (replace_pair a b to (String.◌∷◌ d s))
    ]

abbrev pub slash : Char
slash = "/"

abbrev pub tilde : Char
tilde = "~"

-- `raw_token.replace("~1", "/").replace("~0", "~")`
unfoldable pub unescape : String → String
unfolding replace_pair
unescape raw_token = replace_pair b'~' b'0' tilde (replace_pair b'~' b'1' slash raw_token)

module _ (py : Python) where
  -- The `for` loop over the tokens.
  unfoldable pub tokens_of : List String → Result (List String)
  unfolding are_escaped unescape
  tokens_of [] = ok []
  tokens_of (raw_token ∷ rest) =
      let tokens = tokens_of rest in
      if are_escaped raw_token
      then tokens >>= (λ ts. ok (unescape raw_token ∷ ts))
      else err
          (patch_error (String.◌++◌ "invalid JSON Pointer escape in token " (py.repr raw_token)))

  unfoldable pub parse_pointer : String → Result (List String)
  unfolding tokens_of split_all
  parse_pointer String.[] = ok []
  parse_pointer (String.◌∷◌ c pointer) =
      if nat_beq (code c) b'/'
      then tokens_of (split_all b'/' pointer)
      else err (patch_error "path must be empty or start with '/'")
