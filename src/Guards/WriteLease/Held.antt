-- ===== src/Guards/WriteLease/Held.antt =====
-- blackboard_write_lease.py: a lease that is held stays held.
use multi_bot_agentic.Prelude.{
  ℕ, ◌+◌, ◌<◌, String, false, Option, none, some, leb, ◌==◌, eq_iff, string_eq, ◌≡◌, refl, arith,
  Bool-cases, inl, inr, sym, ◌∙◌, subst,
}
use multi_bot_agentic.Prelude.Dict.{lookup, erase, lookup-insert, lookup-erase}
use multi_bot_agentic.Guards.WriteLease.{SharedBlackboardWriteLease, take_lease, drop_lease}

-- The bot holds the key until a time.
pub record Held (k bid : String) (until : ℕ) (w : SharedBlackboardWriteLease) : Type 0 where
  pub lease : lookup k w.leases ≡ some (bid, until)

pub lt→leb : (m n : ℕ) → m < n → leb n m ≡ false
lt→leb m n h = ground arith

pub take_lease-elsewhere :
    (w : SharedBlackboardWriteLease) (j k bid : String) (stamp : ℕ) (o : Option (String × ℕ))
    → (j == k) ≡ false
    → lookup k (take_lease w j bid stamp o).1.leases ≡ lookup k w.leases
unfolding take_lease
take_lease-elsewhere w j k bid stamp none e =
    ground (arith, e, lookup-insert j k (bid, stamp + w.lease_ms) w.leases)
take_lease-elsewhere w j k bid stamp (some (h, t)) e = ground (
  arith,
  e,
  lookup-insert j k (bid, stamp + w.lease_ms) w.leases,
  lookup-erase j k w.leases,
  lookup-insert j k (bid, stamp + w.lease_ms) (erase j w.leases),
)

pub drop_lease-elsewhere :
    (w : SharedBlackboardWriteLease) (j k bid : String) (o : Option (String × ℕ))
    → (j == k) ≡ false
    → lookup k (drop_lease w j bid o).1.leases ≡ lookup k w.leases
unfolding drop_lease
drop_lease-elsewhere w j k bid none e = refl
drop_lease-elsewhere w j k bid (some (h, t)) e = ground (arith, e, lookup-erase j k w.leases)

-- Another bot is refused while the lease runs.
pub take_lease-refused :
    (w : SharedBlackboardWriteLease) (k bid other : String) (until stamp : ℕ)
    → (bid == other) ≡ false
    → stamp < until
    → ((take_lease w k other stamp (some (bid, until))).0.acquired ≡ false)
      × ((take_lease w k other stamp (some (bid, until))).0.holder ≡ some bid)
      × ((take_lease w k other stamp (some (bid, until))).0.allowed ≡ (w.mode == "advisory"))
      × ((take_lease w k other stamp (some (bid, until))).1 ≡ w)
unfolding take_lease
take_lease-refused w k bid other until stamp e h =
    rw (lt→leb stamp until h, e) (refl, refl, refl, refl)

pub drop_lease-refused :
    (w : SharedBlackboardWriteLease) (k bid other : String) (until : ℕ)
    → (bid == other) ≡ false
    → (drop_lease w k other (some (bid, until))).1 ≡ w
unfolding drop_lease
drop_lease-refused w k bid other until e = rw e refl

module _ (k bid : String) (until : ℕ) (w : SharedBlackboardWriteLease)
    (h : Held k bid until w) where
  pub take_lease-Held :
      (j other : String) (stamp : ℕ)
      → (bid == other) ≡ false
      → stamp < until
      → Held k bid until (take_lease w j other stamp (lookup j w.leases)).1
  take_lease-Held j other stamp e s = elim (Bool-cases (j == k)) [
    | inl f ↦
        subst (λ i. Held k bid until (take_lease w i other stamp (lookup i w.leases)).1)
          (sym ((eq_iff j k).0 f))
          (rw h.lease (rw (take_lease-refused w k bid other until stamp e s).3 h))
    | inr f ↦ record {
      lease = take_lease-elsewhere w j k other stamp (lookup j w.leases) f ∙ h.lease;
    }
  ]

  pub drop_lease-Held :
      (j other : String)
      → (bid == other) ≡ false
      → Held k bid until (drop_lease w j other (lookup j w.leases)).1
  drop_lease-Held j other e = elim (Bool-cases (j == k)) [
    | inl f ↦
        subst (λ i. Held k bid until (drop_lease w i other (lookup i w.leases)).1)
          (sym ((eq_iff j k).0 f)) (rw h.lease (rw (drop_lease-refused w k bid other until e) h))
    | inr f ↦ record { lease = drop_lease-elsewhere w j k other (lookup j w.leases) f ∙ h.lease }
  ]
