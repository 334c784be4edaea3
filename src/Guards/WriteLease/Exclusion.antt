-- ===== src/Guards/WriteLease/Exclusion.antt =====
-- blackboard_write_lease.py: while a lease runs, no other bot's call takes it away.
use multi_bot_agentic.Prelude.{
  ℕ, ◌+◌, ◌<◌, String, true, false, Option, none, some, [], List, ◌∷◌, ◌==◌, eq_refl, ◌||◌,
  string_eq, ◌≡◌, refl, arith, Bool-cases, inl, inr, All,
}
use multi_bot_agentic.Prelude.Dict.{lookup, erase, lookup-insert}
use multi_bot_agentic.Prelude.Text.{strip, is_empty}
use multi_bot_agentic.Exn.{Result, ok, err, OnOk, OnOk-ok}
use multi_bot_agentic.Guards.{require_id, with_id, Leaves}
use multi_bot_agentic.Guards.WriteLease.{
  BlackboardLeaseStatus, SharedBlackboardWriteLease, take_lease, acquire, release,
}
use multi_bot_agentic.Guards.WriteLease.Held.{Held, lt→leb, take_lease-Held, drop_lease-Held}

-- A method call, of any bot on any key.
pub data Call : Type 0 where
  acquires : String → String → ℕ → Call
  releases : String → String → Call

unfoldable pub call : Call → SharedBlackboardWriteLease → SharedBlackboardWriteLease
call (acquires key bot stamp) w = (acquire w key bot stamp).1
call (releases key bot) w = (release w key bot).1

unfoldable pub calls : List Call → SharedBlackboardWriteLease → SharedBlackboardWriteLease
calls [] w = w
calls (x ∷ xs) w = calls xs (call x w)

-- The call is another bot's, before the lease ends.
abbrev pub IsRival : String → ℕ → Call → Type 0
IsRival bid until (acquires key bot stamp) = ((bid == strip bot) ≡ false) × (stamp < until)
IsRival bid until (releases key bot) = (bid == strip bot) ≡ false

require_id-strip : (x label : String) → OnOk (λ id. id ≡ strip x) (require_id x label)
unfolding require_id
require_id-strip x label = ground arith

module _ (k bid : String) (until : ℕ) where
  acquire-Leaves :
      (w : SharedBlackboardWriteLease) (key bot : String) (stamp : ℕ)
      → IsRival bid until (acquires key bot stamp)
      → Held k bid until w
      → Leaves (Held k bid until) (acquire w key bot stamp)
  unfolding acquire with_id
  acquire-Leaves w key bot stamp r h =
      checked (require_id key "key") (require_id bot "bot_id") (require_id-strip bot "bot_id")
    where
      checked :
          (a b : Result String)
          → OnOk (λ id. id ≡ strip bot) b
          → Leaves (Held k bid until) (
              with_id a w λ j.
                with_id b w
                  λ other. let x = take_lease w j other stamp (lookup j w.leases) in (ok x.0, x.1))
      checked (err x) b e = record { holds = h }
      checked (ok j) (err x) e = record { holds = h }
      checked (ok j) (ok other) e = record {
        holds = take_lease-Held k bid until w h j other stamp (rw e r.0) r.1;
      }

  release-Leaves :
      (w : SharedBlackboardWriteLease) (key bot : String)
      → IsRival bid until (releases key bot)
      → Held k bid until w
      → Leaves (Held k bid until) (release w key bot)
  unfolding release
  release-Leaves w key bot r h = elim (Bool-cases (is_empty (strip key) || is_empty (strip bot))) [
    | inl e ↦ rw e (record { holds = h })
    | inr e ↦ rw e (record { holds = drop_lease-Held k bid until w h (strip key) (strip bot) r })
  ]

  calls-Held :
      (xs : List Call) (w : SharedBlackboardWriteLease)
      → All (IsRival bid until) xs
      → Held k bid until w
      → Held k bid until (calls xs w)
  unfolding calls call
  calls-Held [] w r h = h
  calls-Held (acquires key bot stamp ∷ xs) w r h =
      calls-Held xs _ r.1 (acquire-Leaves w key bot stamp r.0 h).holds
  calls-Held (releases key bot ∷ xs) w r h =
      calls-Held xs _ r.1 (release-Leaves w key bot r.0 h).holds

-- A lease that is granted is held for its whole time.
take_lease-granted :
    (w : SharedBlackboardWriteLease) (k bid : String) (stamp : ℕ) (o : Option (String × ℕ))
    → (take_lease w k bid stamp o).0.acquired ≡ true
    → Held k bid (stamp + w.lease_ms) (take_lease w k bid stamp o).1
unfolding take_lease
take_lease-granted w k bid stamp none e = record {
  lease = ground (arith, eq_refl k, lookup-insert k k (bid, stamp + w.lease_ms) w.leases);
}
take_lease-granted w k bid stamp (some (h, t)) e = record {
  lease = ground (
    arith,
    e,
    eq_refl k,
    lookup-insert k k (bid, stamp + w.lease_ms) w.leases,
    lookup-insert k k (bid, stamp + w.lease_ms) (erase k w.leases),
  );
}

-- A granted `acquire` holds the stripped key for the stripped bot.
acquire-granted :
    (w : SharedBlackboardWriteLease) (key bot : String) (stamp : ℕ)
    → OnOk
        (λ st.
          st.acquired ≡ true
          → Held (strip key) (strip bot) (stamp + w.lease_ms) (acquire w key bot stamp).1)
        (acquire w key bot stamp).0
unfolding acquire with_id
acquire-granted w key bot stamp =
    checked (require_id key "key") (require_id bot "bot_id") (require_id-strip key "key")
      (require_id-strip bot "bot_id")
  where
    checked :
        (a b : Result String)
        → OnOk (λ id. id ≡ strip key) a
        → OnOk (λ id. id ≡ strip bot) b
        → OnOk
            (λ st.
              st.acquired ≡ true
              → Held
                  (strip key)
                  (strip bot)
                  (stamp + w.lease_ms)
                  (with_id a w λ j. with_id b w λ other.
                    let x = take_lease w j other stamp (lookup j w.leases) in (ok x.0, x.1)).1)
            (with_id a w λ j.
              with_id b w
                λ other. let x = take_lease w j other stamp (lookup j w.leases) in (ok x.0, x.1)).0
    checked (err x) b d e = tt
    checked (ok j) (err x) d e = tt
    checked (ok j) (ok other) d e = rw (d, e) (take_lease-granted w (strip key) (strip bot) stamp _)

-- What a refused `acquire` answers: not acquired, the holder named, and leave to write only in the
-- advisory mode.
abbrev pub IsRefusal : String → BlackboardLeaseStatus → Type 0
IsRefusal bid st =
    (st.acquired ≡ false) × (st.holder ≡ some bid) × (st.allowed ≡ (st.mode == "advisory"))

acquire-IsRefusal :
    (w : SharedBlackboardWriteLease) (key bid bot : String) (until stamp : ℕ)
    → Held (strip key) bid until w
    → IsRival bid until (acquires key bot stamp)
    → OnOk (IsRefusal bid) (acquire w key bot stamp).0
unfolding acquire with_id take_lease
acquire-IsRefusal w key bid bot until stamp h r =
    checked (require_id key "key") (require_id bot "bot_id") (require_id-strip key "key")
      (require_id-strip bot "bot_id")
  where
    checked :
        (a b : Result String)
        → OnOk (λ id. id ≡ strip key) a
        → OnOk (λ id. id ≡ strip bot) b
        → OnOk
            (IsRefusal bid)
            (with_id a w λ j.
              with_id b w
                λ other. let x = take_lease w j other stamp (lookup j w.leases) in (ok x.0, x.1)).0
    checked (err x) b d e = tt
    checked (ok j) (err x) d e = tt
    checked (ok j) (ok other) d e =
        rw (d, e, h.lease) (rw (lt→leb stamp until r.1, r.0) (refl, refl, refl))

-- Exclusive write leases: once an `acquire` has been granted on a key, and whatever other bots
-- acquire or release on any key before the lease's time is over, every other bot's `acquire` of that
-- key within that time that does not raise is refused, names the holder, and allows the write only
-- in the advisory mode.
pub acquire-exclusive :
    (w : SharedBlackboardWriteLease) (key bot rival : String) (stamp later : ℕ) (xs : List Call)
    (st answer : BlackboardLeaseStatus)
    → (acquire w key bot stamp).0 ≡ ok st
    → st.acquired ≡ true
    → All (IsRival (strip bot) (stamp + w.lease_ms)) xs
    → IsRival (strip bot) (stamp + w.lease_ms) (acquires key rival later)
    → (acquire (calls xs (acquire w key bot stamp).1) key rival later).0 ≡ ok answer
    → IsRefusal (strip bot) answer
acquire-exclusive w key bot rival stamp later xs st answer e a rivals r f =
    OnOk-ok (IsRefusal (strip bot)) _ answer
      (acquire-IsRefusal _ key (strip bot) rival (stamp + w.lease_ms) later
        (calls-Held (strip key) (strip bot) (stamp + w.lease_ms) xs _ rivals
          (OnOk-ok _ _ st (acquire-granted w key bot stamp) e a))
        r)
      f
