-- ===== src/Guards/BotVote/Majority.antt =====
-- bot_vote.py: a majority's winner has more than half of the votes.
use multi_bot_agentic.Prelude.{
  ℕ, ◌+◌, ◌*◌, ◌<◌, String, Bool, true, false, Option, none, some, List, [], ◌∷◌, map, keep, length,
  nat_beq, ◌==◌, eq_iff, eq_refl, string_eq, if◌then◌else◌, ◌≡◌, refl, arith, All, if-split,
  Bool-cases, inl, inr, sym, ◌∙◌, subst,
}
use multi_bot_agentic.Prelude.Dict.{Dict, lookup, insert, get_or, lookup-insert}
use multi_bot_agentic.Prelude.Sort.{place, sort_by}
use multi_bot_agentic.Guards.BotVote.{
  BotVoteConsensusAggregator, counter, ranks_before, decide_winner, leaders_of, result_of,
  aggregate,
}

-- How many of the votes are for an answer.
unfoldable pub votes_for : String → List String → ℕ
votes_for a [] = 0
votes_for a (v ∷ vs) = let rest = votes_for a vs in if v == a then rest + 1 else rest

counter-get_or :
    (vs : List String) (d : Dict String ℕ) (a : String)
    → get_or a 0 (counter d vs) ≡ get_or a 0 d + votes_for a vs
unfolding counter votes_for
counter-get_or [] d a = omega arith
counter-get_or (v ∷ vs) d a = ground (
  arith,
  counter-get_or vs (insert v (get_or v 0 d + 1) d) a,
  lookup-insert v a (get_or v 0 d + 1) d,
  eq_iff v a,
)

-- Every answer is counted once.
abbrev IsDistinct : Dict String ℕ → Type 0
IsDistinct [] = Unit
IsDistinct ((a, n) ∷ d) = (lookup a d ≡ none) × IsDistinct d

insert-IsDistinct :
    (a : String) (n : ℕ) (d : Dict String ℕ) → IsDistinct d → IsDistinct (insert a n d)
unfolding insert lookup
insert-IsDistinct a n [] h = (refl, tt)
insert-IsDistinct a n ((b, m) ∷ d) h =
    if-split IsDistinct (b == a) _ _ (λ e. h)
      (λ e. (
        ground (arith, lookup-insert a b n d, h.0, e, eq_iff a b, eq_iff b a),
        insert-IsDistinct a n d h.1,
      ))

counter-IsDistinct :
    (vs : List String) (d : Dict String ℕ) → IsDistinct d → IsDistinct (counter d vs)
unfolding counter
counter-IsDistinct [] d h = h
counter-IsDistinct (v ∷ vs) d h = counter-IsDistinct vs _ (insert-IsDistinct v _ d h)

-- An entry has the count that the votes give its answer.
abbrev Agrees : (String → ℕ) → String × ℕ → Type 0
Agrees f e = e.1 ≡ f e.0

lookup-behind :
    (a b : String) (n m : ℕ) (d : Dict String ℕ)
    → lookup a d ≡ none
    → lookup b d ≡ some m
    → lookup b ((a, n) ∷ d) ≡ some m
unfolding lookup
lookup-behind a b n m d h e = elim (Bool-cases (a == b)) [
  | inl f ↦ absurd (none-some (sym h ∙ subst (λ c. lookup c d ≡ some m) (sym ((eq_iff a b).0 f)) e))
  | inr f ↦ rw f e
]
  where
    none-some : Path (Option ℕ) none (some m) → ⊥
    none-some x = cc

entries-Agree :
    (f : String → ℕ) (d : Dict String ℕ)
    → IsDistinct d
    → ((a : String) (n : ℕ) → lookup a d ≡ some n → n ≡ f a)
    → All (Agrees f) d
unfolding lookup
entries-Agree f [] h k = tt
entries-Agree f ((a, n) ∷ d) h k = (
  k a n (rw (eq_refl a) refl),
  entries-Agree f d h.1 (λ b m e. k b m (lookup-behind a b n m d h.0 e)),
)

counter-Agree : (vs : List String) → All (Agrees (λ a. votes_for a vs)) (counter [] vs)
unfolding lookup
counter-Agree vs =
    entries-Agree (λ a. votes_for a vs) (counter [] vs) (counter-IsDistinct vs [] tt)
      (λ a n e. ground (arith, e, counter-get_or vs [] a))

All-place :
    (P : String × ℕ → Type 0) (x : String × ℕ) (xs : List (String × ℕ))
    → P x
    → All P xs
    → All P (place ranks_before x xs)
unfolding place
All-place P x [] p h = (p, tt)
All-place P x (y ∷ ys) p h =
    if-split (All P) (ranks_before x y) _ _ (λ _. (p, h)) (λ _. (h.0, All-place P x ys p h.1))

All-sort_by :
    (P : String × ℕ → Type 0) (xs : List (String × ℕ)) → All P xs → All P (sort_by ranks_before xs)
unfolding sort_by
All-sort_by P [] h = tt
All-sort_by P (x ∷ xs) h = All-place P x (sort_by ranks_before xs) h.0 (All-sort_by P xs h.1)

All-keep :
    (P : String × ℕ → Type 0) (p : String × ℕ → Bool) (xs : List (String × ℕ))
    → All P xs
    → All (λ x. P x × (p x ≡ true)) (keep p xs)
All-keep P p [] h = tt
All-keep P p (x ∷ xs) h =
    if-split (All (λ y. P y × (p y ≡ true))) (p x) _ _ (λ e. ((h.0, e), All-keep P p xs h.1))
      (λ _. All-keep P p xs h.1)

decide_winner-majority :
    (is_tie reached : Bool) (leaders : List (String × ℕ)) (Q : String × ℕ → Type 0) (a : String)
    → All Q leaders
    → decide_winner "majority" is_tie reached leaders ≡ some a
    → (reached ≡ true) × ((n : ℕ) × Q (a, n))
unfolding decide_winner
decide_winner-majority is_tie reached [] Q a h e = cc
decide_winner-majority true true ((b, n) ∷ more) Q a h e = cc
decide_winner-majority false true ((b, n) ∷ more) Q a h e =
    let same : b ≡ a = cc in (refl, (n, subst (λ c. Q (c, n)) same h.0))
decide_winner-majority is_tie false ((b, n) ∷ more) Q a h e = cc

result_of-majority :
    (f : String → ℕ) (total : ℕ) (tally : Dict String ℕ) (a : String)
    → All (Agrees f) tally
    → (result_of "majority" total tally).winner ≡ some a
    → total < f a * 2
unfolding result_of
result_of-majority f total [] a h e = cc
result_of-majority f total ((b, top) ∷ rest) a h e =
    let w =
      decide_winner-majority _ _ (leaders_of top ((b, top) ∷ rest)) _ a
        (All-keep (Agrees f) (λ x. nat_beq x.1 top) ((b, top) ∷ rest) h) e in
    ground (arith, w)

-- In majority mode, an answer that `aggregate` names as the winner has more than half of the votes
-- cast.
pub aggregate-majority :
    (g : BotVoteConsensusAggregator) (a : String)
    → g.mode ≡ "majority"
    → (aggregate g).winner ≡ some a
    → length g.ballots < votes_for a (map (λ e. e.1) g.ballots) * 2
unfolding aggregate
aggregate-majority g a m = rw m (
    result_of-majority (λ b. votes_for b (map (λ e. e.1) g.ballots)) (length g.ballots) _ a
      (All-sort_by _ _ (counter-Agree (map (λ e. e.1) g.ballots))))
