-- ===== src/Guards/Blackboard/Sizes.antt =====
-- blackboard.py: what the board holds after any calls.
use Prim.Native.String.{count}
use multi_bot_agentic.Prelude.{
  ℕ, ◌+◌, ◌≤◌, ◌≡◌, refl, sym, subst, String, false, Option, List, [], ◌∷◌, length, ltb, leb, All,
  ◌==◌, eq_iff, string_eq, if◌then◌else◌, arith, Bool-cases, Option-cases, inl, inr,
}
use multi_bot_agentic.Prelude.Text.{strip}
use multi_bot_agentic.Prelude.Dict.{Dict, lookup, insert, erase, has_key}
use multi_bot_agentic.Exn.{ok, OnOk-ok}
use multi_bot_agentic.Guards.{require_id, with_id-Leaves}
use multi_bot_agentic.Guards.Blackboard.{
  BlackboardEntry, SharedBlackboard, init, stored, put_entry, put_value, put, delete,
}

module _ {V : Type 0} where
  length-insert :
      (k : String) (v : V) (d : Dict String V)
      → length (insert k v d) ≡ (if has_key k d then length d else length d + 1)
  unfolding insert lookup
  length-insert k v [] = refl
  length-insert k v ((j, w) ∷ d) = ground (arith, length-insert k v d)

  length-erase : (k : String) (d : Dict String V) → length (erase k d) ≤ length d
  unfolding erase
  length-erase k [] = omega arith
  length-erase k ((j, w) ∷ d) = ground (arith, length-erase k d)

  All-erase :
      (P : String × V → Type 0) (k : String) (d : Dict String V) → All P d → All P (erase k d)
  unfolding erase
  All-erase P k [] h = tt
  All-erase P k ((j, w) ∷ d) h = elim (Bool-cases (j == k)) [
    | inl same ↦ rw same (All-erase P k d h.1)
    | inr other ↦ rw other (h.0, All-erase P k d h.1)
  ]

  All-insert :
      (P : String × V → Type 0) (k : String) (v : V) (d : Dict String V)
      → P (k, v)
      → All P d
      → All P (insert k v d)
  unfolding insert
  All-insert P k v [] p h = (p, tt)
  All-insert P k v ((j, w) ∷ d) p h = elim (Bool-cases (j == k)) [
    | inl same ↦ rw same (subst (λ i. P (i, v)) (sym ((eq_iff j k).0 same)) p, h.1)
    | inr other ↦ rw other (h.0, All-insert P k v d p h.1)
  ]

-- The board's bounds: so many keys at most, each with its own entry, of so many characters at most
-- and of a revision from 1 on.
abbrev pub Fits : ℕ → String × BlackboardEntry → Type 0
Fits chars (k, entry) = (entry.key ≡ k) × (count entry.value ≤ chars) × (1 ≤ entry.revision)

pub record IsWithin (keys chars : ℕ) (b : SharedBlackboard) : Type 0 where
  pub keys_limit : b.max_keys ≡ keys
  pub chars_limit : b.max_value_chars ≡ chars
  pub few : length b.entries ≤ keys
  pub short : All (Fits chars) b.entries

pub data Call : Type 0 where
  stores : String → String → Option String → Call
  deletes : String → Call

-- A call that raises is caught.
unfoldable pub call : Call → SharedBlackboard → SharedBlackboard
unfolding put delete
call (stores raw text writer) b = (put b raw text writer).1
call (deletes raw) b = (delete b raw).1

unfoldable pub calls : List Call → SharedBlackboard → SharedBlackboard
unfolding call
calls [] b = b
calls (c ∷ cs) b = calls cs (call c b)

fits : (limit chars n : ℕ) → limit ≡ chars → ltb limit n ≡ false → n ≤ chars
fits limit chars n e h = ground (arith, e, h)

module _ (keys chars : ℕ) (b : SharedBlackboard) (h : IsWithin keys chars b) where
  stored-IsWithin :
      (k text : String) (writer : Option String) (n : ℕ)
      → count text ≤ chars
      → 1 ≤ n
      → (if has_key k b.entries then length b.entries else length b.entries + 1) ≤ keys
      → IsWithin keys chars (stored b k text writer n).1
  unfolding stored
  stored-IsWithin k text writer n small first room =
      let entry : BlackboardEntry = record {
        key = k;
        value = text;
        writer_bot_id = writer;
        revision = n;
      } in
      record {
        keys_limit = h.keys_limit;
        chars_limit = h.chars_limit;
        few = subst (λ m. m ≤ keys) (sym (length-insert k entry b.entries)) room;
        short = All-insert (Fits chars) k entry b.entries (refl, small, first) h.short;
      }

  put_entry-IsWithin :
      (k text : String) (writer : Option String)
      → count text ≤ chars
      → IsWithin keys chars (put_entry b k text writer (lookup k b.entries)).1
  unfolding put_entry
  put_entry-IsWithin k text writer small = elim (Option-cases (lookup k b.entries)) [
    | inl new ↦ rw new (elim (Bool-cases (leb b.max_keys (length b.entries))) [
      | inl full ↦ rw full h
      | inr room ↦ rw room (
          stored-IsWithin k text writer 1 small (omega arith)
            (ground (arith, new, room, h.keys_limit)))
    ])
    | inr (existing, found) ↦ rw found (
        stored-IsWithin k text writer (existing.revision + 1) small (omega arith)
          (ground (arith, found, h.few)))
  ]

  put_value-IsWithin :
      (k text : String) (writer : Option String) → IsWithin keys chars (put_value b k text writer).1
  unfolding put_value
  put_value-IsWithin k text writer = elim (Bool-cases (ltb b.max_value_chars (count text))) [
    | inl long ↦ rw long h
    | inr small ↦ rw small (
        put_entry-IsWithin k text writer
          (fits b.max_value_chars chars (count text) h.chars_limit small))
  ]

  delete-IsWithin : (raw : String) → IsWithin keys chars (delete b raw).1
  unfolding delete
  delete-IsWithin raw = elim (Bool-cases (has_key (strip raw) b.entries)) [
    | inl there ↦ rw there (record {
      keys_limit = h.keys_limit;
      chars_limit = h.chars_limit;
      few = omega (arith, length-erase (strip raw) b.entries, h.few);
      short = All-erase (Fits chars) (strip raw) b.entries h.short;
    })
    | inr absent ↦ rw absent h
  ]

  call-IsWithin : (c : Call) → IsWithin keys chars (call c b)
  unfolding call put
  call-IsWithin (stores raw text writer) =
      (with_id-Leaves {P = IsWithin keys chars} (require_id raw "key") b
        (λ k. put_value b k text writer) h
        (λ k. record { holds = put_value-IsWithin k text writer })).holds
  call-IsWithin (deletes raw) = delete-IsWithin raw

calls-Within :
    (keys chars : ℕ) (cs : List Call) (b : SharedBlackboard)
    → IsWithin keys chars b
    → IsWithin keys chars (calls cs b)
unfolding calls
calls-Within keys chars [] b h = h
calls-Within keys chars (c ∷ cs) b h =
    calls-Within keys chars cs (call c b) (call-IsWithin keys chars b h c)

init-New :
    (keys chars : ℕ) (b : SharedBlackboard)
    → init keys chars ≡ ok b
    → (b.max_keys ≡ keys) × (b.max_value_chars ≡ chars) × (b.entries ≡ [])
unfolding init
init-New keys chars b =
    OnOk-ok (λ x. (x.max_keys ≡ keys) × (x.max_value_chars ≡ chars) × (x.entries ≡ [])) _ b
      (ground arith)

-- Whatever is put and deleted on a new board, calls that raise included, it never has more keys than
-- its limit, and each entry stands under its own key, is no longer than its limit and has a revision
-- from 1 on.
pub calls-IsWithin :
    (keys chars : ℕ) (b : SharedBlackboard) (cs : List Call)
    → init keys chars ≡ ok b
    → IsWithin keys chars (calls cs b)
calls-IsWithin keys chars b cs e =
    let (keys_limit, chars_limit, empty) = init-New keys chars b e in
    calls-Within keys chars cs b (record {
      keys_limit = keys_limit;
      chars_limit = chars_limit;
      few = rw empty (omega arith);
      short = subst (λ d. All (Fits chars) d) (sym empty) tt;
    })
