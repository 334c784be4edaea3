-- ===== src/Prelude/Sets.antt =====
-- Python's sets of texts, as lists with each member once, and their sorting.
use multi_bot_agentic.Prelude.{
  if◌then◌else◌, keep, not, ◌&&◌, ◌≡◌, ◌∙◌, refl, ap, subst, String, true, false, ◌||◌, List, [],
  ◌∷◌, contains, ◌==◌, eq_iff, string_eq, arith, Bool-cases, inl, inr,
}
use multi_bot_agentic.Prelude.Sort.{place, sort_by}
use multi_bot_agentic.Prelude.Text.{text_le}

-- `holders.add(member)`
unfoldable pub add_member : String → List String → List String
add_member member holders = if contains member holders then holders else member ∷ holders

-- `holders.remove(member)`
unfoldable pub remove_member : String → List String → List String
remove_member member holders = keep (λ x. not (x == member)) holders

-- Each text is there once.
abbrev pub Distinct : List String → Type 0
Distinct [] = Unit
Distinct (x ∷ xs) = (contains x xs ≡ false) × Distinct xs

contains-place :
    (x y : String) (xs : List String) → contains x (place text_le y xs) ≡ (y == x || contains x xs)
unfolding place
contains-place x y [] = ground arith
contains-place x y (z ∷ zs) = ground (arith, contains-place x y zs)

pub contains-sort_by :
    (x : String) (xs : List String) → contains x (sort_by text_le xs) ≡ contains x xs
unfolding sort_by
contains-sort_by x [] = refl
contains-sort_by x (y ∷ ys) =
    contains-place x y (sort_by text_le ys) ∙ ap (λ b. y == x || b) (contains-sort_by x ys)

Distinct-place :
    (y : String) (xs : List String)
    → contains y xs ≡ false
    → Distinct xs
    → Distinct (place text_le y xs)
unfolding place
Distinct-place y [] h d = (refl, tt)
Distinct-place y (z ∷ zs) h d = elim (Bool-cases (text_le y z)) [
  | inl le ↦ rw le (h, d)
  | inr gt ↦ rw gt (
    (contains-place z y zs ∙ ground (arith, h, d, eq_iff z y, eq_iff y z)),
    Distinct-place y zs (ground (arith, h)) d.1,
  )
]

pub Distinct-sort_by : (xs : List String) → Distinct xs → Distinct (sort_by text_le xs)
unfolding sort_by
Distinct-sort_by [] d = tt
Distinct-sort_by (x ∷ xs) d =
    Distinct-place x (sort_by text_le xs) (contains-sort_by x xs ∙ d.0) (Distinct-sort_by xs d.1)

same_member :
    (x bot : String) (xs : List String)
    → contains bot xs ≡ true
    → bot == x ≡ true
    → contains x xs ≡ true
same_member x bot xs there e = subst (λ y. contains y xs ≡ true) ((eq_iff bot x).0 e) there

pub contains-add_member :
    (x bot : String) (xs : List String)
    → contains x (add_member bot xs) ≡ (bot == x || contains x xs)
unfolding add_member
contains-add_member x bot xs = elim (Bool-cases (contains bot xs)) [
  | inl there ↦ rw there (ground (arith, same_member x bot xs there))
  | inr new ↦ rw new refl
]

pub Distinct-add_member :
    (bot : String) (xs : List String) → Distinct xs → Distinct (add_member bot xs)
unfolding add_member
Distinct-add_member bot xs d = elim (Bool-cases (contains bot xs)) [
  | inl there ↦ rw there d
  | inr new ↦ rw new (new, d)
]

pub contains-remove_member :
    (x member : String) (xs : List String)
    → contains x (remove_member member xs) ≡ (not (member == x) && contains x xs)
unfolding remove_member
contains-remove_member x member [] = ground arith
contains-remove_member x member (y ∷ ys) =
    ground (arith, contains-remove_member x member ys, eq_iff y member, eq_iff y x, eq_iff member x)
