-- ===== src/Guards/DeadLetters/Pending.antt =====
-- dead_letter_tool_queue.py: what is pending after a call.
use multi_bot_agentic.Prelude.{
  ℕ, String, Bool, true, false, not, Option, none, some, List, [], ◌∷◌, ◌++◌, keep, ◌==◌, eq_iff,
  eq_refl, string_eq, if◌then◌else◌, ◌≡◌, ◌≢◌, refl, sym, subst, ◌∙◌, arith, Bool-cases, inl, inr,
}
use multi_bot_agentic.Prelude.Dict.{lookup, insert, lookup-insert}
use multi_bot_agentic.Prelude.Text.{strip, is_empty}
use multi_bot_agentic.Exn.{Result, ok, err, OnOk}
use multi_bot_agentic.Json.{Json}
use multi_bot_agentic.Guards.DeadLetters.{
  DeadLetterItem, DeadLetterToolQueue, new_item, write_item, enqueue, list_pending, already,
  acknowledged_item, acknowledge,
}

-- Every item stands under its own identifier, once.
abbrev pub IsKeyed : DeadLetterToolQueue → Type 0
IsKeyed [] = Unit
IsKeyed ((k, item) ∷ q) = (item.item_id ≡ k) × (lookup k q ≡ none) × IsKeyed q

-- All items but one.
abbrev pub without : String → List DeadLetterItem → List DeadLetterItem
without id items = keep (λ item. not (item.item_id == id)) items

without-absent :
    (id : String) (q : DeadLetterToolQueue)
    → IsKeyed q
    → lookup id q ≡ none
    → without id (list_pending q) ≡ list_pending q
unfolding list_pending lookup
without-absent id [] h e = refl
without-absent id ((k, item) ∷ q) h e =
    let apart : (k == id) ≡ false = ground (arith, e) in
    let tail : lookup id q ≡ none = ground (arith, e) in
    let other : (item.item_id == id) ≡ false = rw h.0 apart in
    ground (arith, other, without-absent id q h.2 tail)

insert-pending :
    (id : String) (item : DeadLetterItem) (q : DeadLetterToolQueue)
    → IsKeyed q
    → item.acknowledged ≡ true
    → ((old : DeadLetterItem) × (lookup id q ≡ some old))
    → list_pending (insert id item q) ≡ without id (list_pending q)
unfolding list_pending lookup insert
insert-pending id item [] h a o = ground (arith, a)
insert-pending id item ((k, w) ∷ q) h a o = elim (Bool-cases (k == id)) [
  | inl f ↦
      let own : (w.item_id == id) ≡ true = rw h.0 f in
      let tail : lookup id q ≡ none = subst (λ i. lookup i q ≡ none) ((eq_iff k id).0 f) h.1 in
      ground (arith, a, f, own, without-absent id q h.2 tail)
  | inr f ↦
      let other : (w.item_id == id) ≡ false = rw h.0 f in
      let tail : lookup id q ≡ some o.0 = ground (arith, f, o.1) in
      ground (arith, f, other, insert-pending id item q h.2 a (o.0, tail))
]

lookup-item_id :
    (id : String) (item : DeadLetterItem) (q : DeadLetterToolQueue)
    → IsKeyed q
    → lookup id q ≡ some item
    → item.item_id ≡ id
unfolding lookup
lookup-item_id id item [] h e = cc
lookup-item_id id item ((k, w) ∷ q) h e = elim (Bool-cases (k == id)) [
  | inl f ↦ let same : w ≡ item = ground (arith, f, e) in rw (sym same) (h.0 ∙ (eq_iff k id).0 f)
  | inr f ↦ lookup-item_id id item q h.2 (ground (arith, f, e))
]

insert-IsKeyed :
    (id : String) (item : DeadLetterItem) (q : DeadLetterToolQueue)
    → item.item_id ≡ id
    → IsKeyed q
    → IsKeyed (insert id item q)
unfolding insert lookup
insert-IsKeyed id item [] e h = (e, refl, tt)
insert-IsKeyed id item ((k, w) ∷ q) e h = elim (Bool-cases (k == id)) [
  | inl f ↦ rw f (e ∙ sym ((eq_iff k id).0 f), h.1, h.2)
  | inr f ↦ rw f (
    h.0,
    ground (arith, lookup-insert id k item q, h.1, f, eq_iff k id, eq_iff id k),
    insert-IsKeyed id item q e h.2,
  )
]

-- A new identifier's item comes last.
insert-fresh :
    (id : String) (item : DeadLetterItem) (q : DeadLetterToolQueue)
    → lookup id q ≡ none
    → list_pending (insert id item q)
      ≡ list_pending q ++ (if item.acknowledged then [] else item ∷ [])
unfolding insert list_pending lookup
insert-fresh id item [] e = ground arith
insert-fresh id item ((k, w) ∷ q) e =
    let apart : (k == id) ≡ false = ground (arith, e) in
    let tail : lookup id q ≡ none = ground (arith, e) in
    ground (arith, apart, insert-fresh id item q tail)

-- What a new item always has.
new_item-pending :
    (uuid iso_now tool_name : String) (args : Json) (error : String) (n : ℕ) (at : Option String)
    → OnOk
        (λ i. (i.item_id ≡ uuid) × (i.acknowledged ≡ false))
        (new_item uuid iso_now tool_name args error n at)
unfolding new_item
new_item-pending uuid iso_now tool_name args error n at = ground arith

write_item-new :
    (q : DeadLetterToolQueue) (uuid : String) (item : DeadLetterItem)
    → IsKeyed q
    → lookup uuid q ≡ none
    → (r : Result DeadLetterItem) → OnOk (λ i. (i.item_id ≡ uuid) × (i.acknowledged ≡ false)) r
    → (write_item q uuid r).0 ≡ ok item
    → (list_pending (write_item q uuid r).1 ≡ list_pending q ++ item ∷ [])
      × IsKeyed (write_item q uuid r).1
unfolding write_item
write_item-new q uuid item h e (err x) o k = cc
write_item-new q uuid item h e (ok i) o k =
    let same : i ≡ item = cc in
    (
      subst (λ x. list_pending (insert uuid i q) ≡ list_pending q ++ x ∷ []) same
          (subst
            (λ b. list_pending (insert uuid i q) ≡ list_pending q ++ (if b then [] else i ∷ [])) o.1
            (insert-fresh uuid i q e)),
      insert-IsKeyed uuid i q o.0 h,
    )

-- An `enqueue` that does not raise, under an identifier that is new, adds its item at the end of the
-- pending ones and keeps every item under its own identifier.
pub enqueue-pending :
    (q : DeadLetterToolQueue) (uuid iso_now tool_name : String) (args : Json) (error : String)
    (n : ℕ) (at : Option String) (item : DeadLetterItem)
    → IsKeyed q
    → lookup uuid q ≡ none
    → (enqueue q uuid iso_now tool_name args error n at).0 ≡ ok item
    → (list_pending (enqueue q uuid iso_now tool_name args error n at).1
        ≡ list_pending q ++ item ∷ [])
      × IsKeyed (enqueue q uuid iso_now tool_name args error n at).1
unfolding enqueue
enqueue-pending q uuid iso_now tool_name args error n at item h e =
    write_item-new q uuid item h e _ (new_item-pending uuid iso_now tool_name args error n at)

-- An item that is acknowledged now.
acknowledged_item-now :
    (id : String) (o : Option DeadLetterItem)
    → OnOk
        (λ i.
          (old : DeadLetterItem) × (o ≡ some old)
          × (i.item_id ≡ old.item_id)
          × (i.acknowledged ≡ true))
        (acknowledged_item id o)
unfolding acknowledged_item
acknowledged_item-now id none = tt
acknowledged_item-now id (some old) = split old.acknowledged
  where
    split :
        (b : Bool)
        → OnOk
            (λ i.
              (x : DeadLetterItem) × (some old ≡ some x)
              × (i.item_id ≡ x.item_id)
              × (i.acknowledged ≡ true))
            (if b then err (already id) else ok (record old { acknowledged = true }))
    split true = tt
    split false = (old, refl, refl, refl)

-- The next `acknowledge` of an item that is there and acknowledged.
acknowledge-again :
    (q : DeadLetterToolQueue) (id : String) (item : DeadLetterItem)
    → is_empty (strip id) ≡ false
    → lookup id q ≡ some item
    → item.acknowledged ≡ true
    → (acknowledge q id).0 ≡ err (already id)
unfolding acknowledge acknowledged_item write_item
acknowledge-again q id item b l a = rw (b, l, acknowledged_item) (rw a refl)

write_item-acknowledged :
    (q : DeadLetterToolQueue) (id : String) (item : DeadLetterItem)
    → IsKeyed q
    → is_empty (strip id) ≡ false
    → (r : Result DeadLetterItem)
    → OnOk
        (λ i.
          (old : DeadLetterItem) × (lookup id q ≡ some old)
          × (i.item_id ≡ old.item_id)
          × (i.acknowledged ≡ true))
        r
    → (write_item q id r).0 ≡ ok item
    → (list_pending (write_item q id r).1 ≡ without id (list_pending q))
      × IsKeyed (write_item q id r).1
      × ((acknowledge (write_item q id r).1 id).0 ≡ err (already id))
unfolding write_item
write_item-acknowledged q id item h b (err x) o k = cc
write_item-acknowledged q id item h b (ok i) (old, l, e, a) k = (
  insert-pending id i q h a (old, l),
  insert-IsKeyed id i q (e ∙ lookup-item_id id old q h l) h,
  acknowledge-again (insert id i q) id i b (rw (lookup-insert id id i q, eq_refl id) refl) a,
)

acknowledge-write_item :
    (q : DeadLetterToolQueue) (id : String)
    → is_empty (strip id) ≡ false
    → write_item q id (acknowledged_item id (lookup id q)) ≡ acknowledge q id
unfolding acknowledge
acknowledge-write_item q id b = rw b refl

acknowledge-blank :
    (q : DeadLetterToolQueue) (id : String) (item : DeadLetterItem)
    → is_empty (strip id) ≡ true
    → (acknowledge q id).0 ≢ ok item
unfolding acknowledge
acknowledge-blank q id item b = rw b (λ e. cc)

-- An `acknowledge` that does not raise takes exactly the item of that identifier out of the pending
-- ones, keeps every item under its own identifier, and cannot be repeated: the next `acknowledge` of
-- the identifier raises.
pub acknowledge-pending :
    (q : DeadLetterToolQueue) (id : String) (item : DeadLetterItem)
    → IsKeyed q
    → (acknowledge q id).0 ≡ ok item
    → (list_pending (acknowledge q id).1 ≡ without id (list_pending q))
      × IsKeyed (acknowledge q id).1
      × ((acknowledge (acknowledge q id).1 id).0 ≡ err (already id))
acknowledge-pending q id item h = elim (Bool-cases (is_empty (strip id))) [
  | inl b ↦ λ e. absurd (acknowledge-blank q id item b e)
  | inr b ↦
      subst
        (λ x.
          x.0 ≡ ok item
          → (list_pending x.1 ≡ without id (list_pending q))
            × IsKeyed x.1
            × ((acknowledge x.1 id).0 ≡ err (already id)))
        (acknowledge-write_item q id b)
        (write_item-acknowledged q id item h b _ (acknowledged_item-now id (lookup id q)))
]
