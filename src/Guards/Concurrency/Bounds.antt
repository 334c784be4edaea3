-- ===== src/Guards/Concurrency/Bounds.antt =====
-- concurrency_limiter.py: the limits hold through every interleaving of the threads' calls.
use multi_bot_agentic.Prelude.{
  ℕ, ◌+◌, ◌≤◌, Bool, true, false, Option, none, some, List, [], ◌∷◌, leb, ◌≡◌, arith, All, if-split,
}
use multi_bot_agentic.Exn.{ok, OnOk, OnOk-ok}
use multi_bot_agentic.Json.{ℤ, pos, negsuc}
use multi_bot_agentic.Guards.Concurrency.{
  AdaptiveConcurrencyLimiter, init, is_full, leave, release, Round, wait_for_slot, take_slot,
  acquire, goes_on, is_past,
}

-- The effective limit is between the two configured ones, and no more slots are held than the
-- maximum.
abbrev pub IsBounded : AdaptiveConcurrencyLimiter → Type 0
IsBounded l =
    (1 ≤ l.min_in_flight)
    × (l.min_in_flight ≤ l.effective_limit)
    × (l.effective_limit ≤ l.max_in_flight)
    × (l.in_flight ≤ l.max_in_flight)

abbrev LeavesBounded : {A : Type 0} → A × AdaptiveConcurrencyLimiter → Type 0
LeavesBounded x = IsBounded x.1

-- What the other threads do in a round keeps the bounds.
abbrev pub IsFair : Round → Type 0
IsFair r = (l : AdaptiveConcurrencyLimiter) → IsBounded l → IsBounded (r.others l)

leave-IsBounded : (l : AdaptiveConcurrencyLimiter) (b : Bool) → IsBounded l → IsBounded (leave l b)
unfolding leave
leave-IsBounded l true h = ground (arith, h)
leave-IsBounded l false h = ground (arith, h)

wait_for_slot-IsBounded :
    (d : Option ℕ) (rs : List Round) (l : AdaptiveConcurrencyLimiter)
    → All IsFair rs
    → IsBounded l
    → IsBounded (wait_for_slot d rs l).1
unfolding wait_for_slot
wait_for_slot-IsBounded d [] l f h = ground (arith, h)
wait_for_slot-IsBounded d (r ∷ rs) l f h =
    let out : IsBounded (r.others l) = f.0 l h in
    if-split LeavesBounded (is_full l) _ _
      (λ e.
        if-split LeavesBounded (is_past d r.reading) _ _ (λ _. h)
          λ _.
            if-split LeavesBounded (goes_on d r.notified) _ _
              (λ _. wait_for_slot-IsBounded d rs (r.others l) f.1 out) λ _. out)
      (λ e. ground (arith, e, h))

take_slot-IsBounded :
    (l : AdaptiveConcurrencyLimiter) (b : Bool) (t : Option ℕ) (start : ℕ) (rs : List Round)
    → All IsFair rs
    → IsBounded l
    → IsBounded (take_slot l b t start rs).1
unfolding take_slot
take_slot-IsBounded l false t start rs f h = ground (arith, h)
take_slot-IsBounded l true none start rs f h = wait_for_slot-IsBounded none rs l f h
take_slot-IsBounded l true (some t) start rs f h =
    wait_for_slot-IsBounded (some (start + t)) rs l f h

acquire-IsBounded :
    (l : AdaptiveConcurrencyLimiter) (b : Bool) (t : Option ℤ) (start : ℕ) (rs : List Round)
    → All IsFair rs
    → IsBounded l
    → IsBounded (acquire l b t start rs).1
unfolding acquire
acquire-IsBounded l b (some (negsuc n)) start rs f h = h
acquire-IsBounded l b (some (pos n)) start rs f h = take_slot-IsBounded l b (some n) start rs f h
acquire-IsBounded l b none start rs f h = take_slot-IsBounded l b none start rs f h

release-IsBounded :
    (l : AdaptiveConcurrencyLimiter) (success : Bool)
    → IsBounded l
    → IsBounded (release l success).1
unfolding release
release-IsBounded l success h =
    if-split LeavesBounded (leb l.in_flight 0) _ _ (λ _. h) λ _. leave-IsBounded l success h

-- A thread's call: an `acquire` with what its waiting meets, or a `release`.
pub data Call : Type 0 where
  acquires : Bool → Option ℤ → ℕ → List Round → Call
  releases : Bool → Call

unfoldable pub call : Call → AdaptiveConcurrencyLimiter → AdaptiveConcurrencyLimiter
call (acquires b t start rs) l = (acquire l b t start rs).1
call (releases success) l = (release l success).1

unfoldable pub calls : List Call → AdaptiveConcurrencyLimiter → AdaptiveConcurrencyLimiter
calls [] l = l
calls (x ∷ xs) l = calls xs (call x l)

-- The other threads' calls between the rounds of a waiting call keep the bounds.
abbrev pub AreFair : Call → Type 0
AreFair (acquires b t start rs) = All IsFair rs
AreFair (releases success) = Unit

calls-keeps :
    (xs : List Call) (l : AdaptiveConcurrencyLimiter)
    → All AreFair xs
    → IsBounded l
    → IsBounded (calls xs l)
unfolding calls call
calls-keeps [] l f h = h
calls-keeps (acquires b t start rs ∷ xs) l f h =
    calls-keeps xs _ f.1 (acquire-IsBounded l b t start rs f.0 h)
calls-keeps (releases success ∷ xs) l f h = calls-keeps xs _ f.1 (release-IsBounded l success h)

init-IsBounded : (most least : ℕ) (adaptive : Bool) → OnOk IsBounded (init most least adaptive)
unfolding init
init-IsBounded most least adaptive = ground arith

-- A new limiter's calls, in any order, waiting or not, with successes and failures, keep its
-- effective limit between its minimum and its maximum, and never more slots are held than its
-- maximum, as long as what other threads do during a wait keeps these bounds.
pub calls-IsBounded :
    (most least : ℕ) (adaptive : Bool) (l : AdaptiveConcurrencyLimiter) (xs : List Call)
    → init most least adaptive ≡ ok l
    → All AreFair xs
    → IsBounded (calls xs l)
calls-IsBounded most least adaptive l xs e f =
    calls-keeps xs l f (OnOk-ok IsBounded _ l (init-IsBounded most least adaptive) e)

-- A round of one other thread's call is such a round.
pub call-IsFair :
    (reading : ℕ) (notified : Bool) (x : Call)
    → AreFair x
    → IsFair (record { reading = reading; others = call x; notified = notified })
unfolding calls call
call-IsFair reading notified x f l h = calls-keeps (x ∷ []) l (f, tt) h

-- A true answer leaves no more slots held than the effective limit.
abbrev IsAdmitted : Option Bool × AdaptiveConcurrencyLimiter → Type 0
IsAdmitted x = x.0 ≡ some true → x.1.in_flight ≤ x.1.effective_limit

wait_for_slot-free :
    (d : Option ℕ) (rs : List Round) (l : AdaptiveConcurrencyLimiter)
    → (wait_for_slot d rs l).0 ≡ some true
    → (wait_for_slot d rs l).1.in_flight ≤ (wait_for_slot d rs l).1.effective_limit
unfolding wait_for_slot
wait_for_slot-free d [] l =
    if-split IsAdmitted (is_full l) _ _ (λ _ e. cc) (λ e _. ground (arith, e))
wait_for_slot-free d (r ∷ rs) l =
    if-split IsAdmitted (is_full l) _ _
      (λ _.
        if-split IsAdmitted (is_past d r.reading) _ _ (λ _ e. cc)
          λ _.
            if-split IsAdmitted (goes_on d r.notified) _ _
              (λ _. wait_for_slot-free d rs (r.others l)) λ _ e. cc)
      (λ e _. ground (arith, e))

take_slot-free :
    (l : AdaptiveConcurrencyLimiter) (b : Bool) (t : Option ℕ) (start : ℕ) (rs : List Round)
    → IsAdmitted (take_slot l b t start rs)
unfolding take_slot
take_slot-free l false t start rs =
    if-split IsAdmitted (is_full l) _ _ (λ _ e. cc) (λ e _. ground (arith, e))
take_slot-free l true none start rs = wait_for_slot-free none rs l
take_slot-free l true (some t) start rs = wait_for_slot-free (some (start + t)) rs l

-- A slot that is granted was free: an `acquire` that answers true leaves no more slots held than the
-- effective limit, however long it waited.
pub acquire-free :
    (l : AdaptiveConcurrencyLimiter) (b : Bool) (t : Option ℤ) (start : ℕ) (rs : List Round)
    → (acquire l b t start rs).0 ≡ ok (some true)
    → (acquire l b t start rs).1.in_flight ≤ (acquire l b t start rs).1.effective_limit
unfolding acquire
acquire-free l b (some (negsuc n)) start rs e = cc
acquire-free l b (some (pos n)) start rs e = take_slot-free l b (some n) start rs cc
acquire-free l b none start rs e = take_slot-free l b none start rs cc
