-- ===== src/Tools/JsonPatch/Printing.antt =====
-- json_patch_apply.py: `_parse_pointer` reads back what RFC 6901 writes.
use Prim.Native.Char.{Char, code}
use Prim.Native.String.{String}
use text.Mathlib.TextEquality.{Char-path}
use multi_bot_agentic.Prelude.{
  ℕ, ◌≡◌, refl, sym, ap, ◌∙◌, Bool, true, false, List, [], ◌∷◌, nat_beq, nat_beq_iff, if◌then◌else◌,
  inl, inr, Bool-cases,
}
use multi_bot_agentic.Exn.{ok}
use multi_bot_agentic.Tools.JsonPatch.Pointer.{
  Python, split_all, are_escaped, replace_pair, unescape, slash, tilde, tokens_of, parse_pointer,
}

abbrev is_char : ℕ → Char → Bool
is_char n c = nat_beq (code c) n

-- RFC 6901, section 3: `~` is written `~0` and `/` is written `~1`; before a text that follows.
unfoldable pub escape_onto : String → String → String
escape_onto String.[] text = text
escape_onto (String.◌∷◌ c s) text =
    let rest = escape_onto s text in
    if is_char b'~' c
    then String.◌∷◌ tilde (String.◌∷◌ "0" rest)
    else if is_char b'/' c
    then String.◌∷◌ tilde (String.◌∷◌ "1" rest)
    else String.◌∷◌ c rest

-- A pointer: each token after a `/`.
unfoldable pub pointer_of : List String → String
unfolding escape_onto
pointer_of [] = ""
pointer_of (token ∷ tokens) = String.◌∷◌ slash (escape_onto token (pointer_of tokens))

-- A token with only its `~` escaped.
unfoldable half : String → String
half String.[] = ""
half (String.◌∷◌ c s) =
    let rest = half s in
    if is_char b'~' c then String.◌∷◌ tilde (String.◌∷◌ "0" rest) else String.◌∷◌ c rest

skip :
    (a b : ℕ) (to c : Char) (s : String)
    → is_char a c ≡ false
    → replace_pair a b to (String.◌∷◌ c s) ≡ String.◌∷◌ c (replace_pair a b to s)
unfolding replace_pair
skip a b to c String.[] h = refl
skip a b to c (String.◌∷◌ d s) h = rw (h, replace_pair) refl

char_of : (c d : Char) → is_char (code d) c ≡ true → d ≡ c
char_of c d h = Char-path d c (sym ((nat_beq_iff (code c) (code d)).0 h))

replace_slash : (s : String) → replace_pair b'~' b'1' slash (escape_onto s "") ≡ half s
unfolding escape_onto half replace_pair
replace_slash String.[] = refl
replace_slash (String.◌∷◌ c s) = elim (Bool-cases (is_char b'~' c)) [
  | inl h ↦ rw h (
      ap (λ r. String.◌∷◌ tilde r)
        (skip b'~' b'1' slash "0" (escape_onto s "") refl
          ∙ ap (λ r. String.◌∷◌ "0" r) (replace_slash s)))
  | inr h ↦ elim (Bool-cases (is_char b'/' c)) [
    | inl k ↦
        rw (h, k)
          (ap (λ r. String.◌∷◌ slash r) (replace_slash s)
            ∙ ap (λ d. String.◌∷◌ d (half s)) (char_of c slash k))
    | inr k ↦
        rw (h, k)
          (skip b'~' b'1' slash c (escape_onto s "") h ∙ ap (λ r. String.◌∷◌ c r) (replace_slash s))
  ]
]

replace_tilde : (s : String) → replace_pair b'~' b'0' tilde (half s) ≡ s
unfolding half replace_pair
replace_tilde String.[] = refl
replace_tilde (String.◌∷◌ c s) = elim (Bool-cases (is_char b'~' c)) [
  | inl h ↦ rw h (
      ap (λ r. String.◌∷◌ tilde r) (replace_tilde s) ∙ ap (λ d. String.◌∷◌ d s) (char_of c tilde h))
  | inr h ↦ rw h (skip b'~' b'0' tilde c (half s) h ∙ ap (λ r. String.◌∷◌ c r) (replace_tilde s))
]

unescape-escape_onto : (s : String) → unescape (escape_onto s "") ≡ s
unfolding unescape
unescape-escape_onto s = ap (replace_pair b'~' b'0' tilde) (replace_slash s) ∙ replace_tilde s

escaped_skip :
    (c : Char) (s : String) → is_char b'~' c ≡ false → are_escaped (String.◌∷◌ c s) ≡ are_escaped s
unfolding are_escaped
escaped_skip c String.[] h = rw (h, are_escaped) refl
escaped_skip c (String.◌∷◌ d s) h = rw (h, are_escaped) refl

are_escaped-escape_onto : (s : String) → are_escaped (escape_onto s "") ≡ true
unfolding escape_onto are_escaped
are_escaped-escape_onto String.[] = refl
are_escaped-escape_onto (String.◌∷◌ c s) = elim (Bool-cases (is_char b'~' c)) [
  | inl h ↦ rw h (are_escaped-escape_onto s)
  | inr h ↦ elim (Bool-cases (is_char b'/' c)) [
    | inl k ↦ rw (h, k) (are_escaped-escape_onto s)
    | inr k ↦ rw (h, k) (escaped_skip c (escape_onto s "") h ∙ are_escaped-escape_onto s)
  ]
]

-- An escaped token has no separator in it.
split-escape_onto :
    (token text : String) (head : String) (parts : List String)
    → split_all b'/' text ≡ head ∷ parts
    → split_all b'/' (escape_onto token text) ≡ escape_onto token head ∷ parts
unfolding escape_onto split_all
split-escape_onto String.[] text head parts h = h
split-escape_onto (String.◌∷◌ c s) text head parts h = elim (Bool-cases (is_char b'~' c)) [
  | inl k ↦ rw (k, split-escape_onto s text head parts h) refl
  | inr k ↦ elim (Bool-cases (is_char b'/' c)) [
    | inl l ↦ rw (k, l, split-escape_onto s text head parts h) refl
    | inr l ↦ rw (k, l, split-escape_onto s text head parts h, l) refl
  ]
]

-- The parts of a pointer after its first `/` are its escaped tokens.
escaped : List String → List String
escaped [] = []
escaped (token ∷ tokens) = escape_onto token "" ∷ escaped tokens

split-pointer_of :
    (token : String) (tokens : List String)
    → split_all b'/' (escape_onto token (pointer_of tokens)) ≡ escaped (token ∷ tokens)
unfolding pointer_of escaped split_all
split-pointer_of token [] = split-escape_onto token "" "" [] refl
split-pointer_of token (next ∷ rest) =
    split-escape_onto token (pointer_of (next ∷ rest)) "" (escaped (next ∷ rest))
      (ap (λ parts. "" ∷ parts) (split-pointer_of next rest))

module _ (py : Python) where
  tokens_of-escaped : (tokens : List String) → tokens_of py (escaped tokens) ≡ ok tokens
  unfolding tokens_of escaped
  tokens_of-escaped [] = refl
  tokens_of-escaped (token ∷ tokens) =
      rw (are_escaped-escape_onto token, tokens_of-escaped tokens, unescape-escape_onto token) refl

  -- `_parse_pointer` of the pointer that RFC 6901 writes for a list of tokens answers those tokens.
  pub parse_pointer-pointer_of :
      (tokens : List String) → parse_pointer py (pointer_of tokens) ≡ ok tokens
  unfolding parse_pointer pointer_of
  parse_pointer-pointer_of [] = refl
  parse_pointer-pointer_of (token ∷ tokens) =
      rw (split-pointer_of token tokens) (tokens_of-escaped (token ∷ tokens))
