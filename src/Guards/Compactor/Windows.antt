-- ===== src/Guards/Compactor/Windows.antt =====
-- event_compactor.py: what a compacted list keeps.
use multi_bot_agentic.Prelude.{
  ℕ, zero, suc, ◌+◌, ◌-◌, ◌≤◌, ◌<◌, List, [], ◌∷◌, ◌++◌, length, take, drop, ◌≡◌, refl, ap, ◌∙◌,
  arith, length-append, length-take, length-drop,
}
use multi_bot_agentic.Json.{Json, obj, str, int, pos, field, end}
use multi_bot_agentic.Guards.Compactor.{EventLogCompactor, window, marker, compact_list}

take-take : (n : ℕ) (xs ys : List Json) → n ≤ length xs → take n (take n xs ++ ys) ≡ take n xs
take-take zero xs ys h = refl
take-take (suc n) [] ys h = absurd (omega (arith, h))
take-take (suc n) (x ∷ xs) ys h = ap (λ l. x ∷ l) (take-take n xs ys (omega (arith, h)))

drop-take :
    (n : ℕ) (xs ys : List Json) (m : Json) → n ≤ length xs → drop (suc n) (take n xs ++ m ∷ ys) ≡ ys
drop-take zero xs ys m h = refl
drop-take (suc n) [] ys m h = absurd (omega (arith, h))
drop-take (suc n) (x ∷ xs) ys m h = drop-take n xs ys m (omega (arith, h))

middle :
    (n : ℕ) (xs ys : List Json) (m : Json)
    → n ≤ length xs
    → take 1 (drop n (take n xs ++ m ∷ ys)) ≡ m ∷ []
middle zero xs ys m h = refl
middle (suc n) [] ys m h = absurd (omega (arith, h))
middle (suc n) (x ∷ xs) ys m h = middle n xs ys m (omega (arith, h))

-- The event that stands for `n` dropped ones, written out.
abbrev pub written : EventLogCompactor → ℕ → Json
written c n = obj (
    field "event_type" (str "event_log.compacted") (
      field "dropped_count" (int (pos n)) (
        field "keep_head" (int (pos c.keep_head)) (field "keep_tail" (int (pos c.keep_tail)) end))))

marker-written : (c : EventLogCompactor) (n : ℕ) → marker c n ≡ written c n
unfolding marker
marker-written c n = refl

-- The length of a head, a marker and a tail.
length-windows :
    (a b : ℕ) (xs : List Json) (m : Json)
    → a + b < length xs
    → length (take a xs ++ m ∷ drop (length xs - b) xs) ≡ suc (a + b)
length-windows a b xs m h = omega (
  arith,
  length-append (take a xs) (m ∷ drop (length xs - b) xs),
  length-take a xs,
  length-drop (length xs - b) xs,
  h,
)

-- A list that is longer than the window.
compact_list-long :
    (c : EventLogCompactor) (events : List Json)
    → window c < length events
    → (compact_list c events).events
      ≡ take c.keep_head events
        ++ (marker c (length events - window c) ∷ drop (length events - c.keep_tail) events)
unfolding compact_list
compact_list-long c events h = ground (arith, h)

compact_list-short :
    (c : EventLogCompactor) (events : List Json)
    → length events ≤ window c
    → (compact_list c events).events ≡ events
unfolding compact_list
compact_list-short c events h = ground (arith, h)

compact_list-dropped :
    (c : EventLogCompactor) (events : List Json)
    → window c < length events
    → (compact_list c events).dropped_count + window c ≡ length events
unfolding compact_list
compact_list-dropped c events h = ground (arith, h)

-- A list that fits in the window is left as it is. A longer one is cut to one event more than the
-- window: its own first `keep_head` events, then an event of the type `event_log.compacted` whose
-- `dropped_count` is by how many the list is longer than the window, with both settings, and its own
-- last `keep_tail` events. The result's `dropped_count` is the same number.
pub compact_list-keeps :
    (c : EventLogCompactor) (events : List Json)
    → (length events ≤ window c → (compact_list c events).events ≡ events)
      × (window c < length events
          → (length (compact_list c events).events ≡ suc (window c))
            × (take c.keep_head (compact_list c events).events ≡ take c.keep_head events)
            × (take 1 (drop c.keep_head (compact_list c events).events)
                ≡ written c (length events - window c) ∷ [])
            × (drop (suc c.keep_head) (compact_list c events).events
                ≡ drop (length events - c.keep_tail) events)
            × ((compact_list c events).dropped_count + window c ≡ length events))
compact_list-keeps c events = (
  compact_list-short c events,
  λ h. rw (compact_list-long c events h) (
    length-windows c.keep_head c.keep_tail events _ h,
    take-take c.keep_head events _ (omega (arith, h)),
    middle c.keep_head events _ _ (omega (arith, h))
        ∙ ap (λ m. m ∷ []) (marker-written c (length events - window c)),
    drop-take c.keep_head events _ _ (omega (arith, h)),
    compact_list-dropped c events h,
  ),
)
