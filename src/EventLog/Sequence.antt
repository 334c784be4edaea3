-- ===== src/EventLog/Sequence.antt =====
-- The rows of a run are numbered 1, 2, 3, … in the order of the appends, so reading a run back
-- gives its events in the order in which they were written.
use mathlib.Core.List.{append-nil}
use multi_bot_agentic.Prelude.{
  ℕ, ◌+◌, ◌≤◌, max, String, ◌≡◌, refl, ap, true, false, List, [], ◌∷◌, ◌++◌, ◌==◌, string_eq,
  eq_iff, eq_refl, leb, keep, keep-append, ◌⊎◌, length, All, arith, Bool-cases, inl, inr,
  if◌then◌else◌,
}
use multi_bot_agentic.Prelude.Sort.{IsSorted, sort_by_sorted}
use multi_bot_agentic.Json.{Payload}
use multi_bot_agentic.Models.{RunState, EventType}
use multi_bot_agentic.EventLog.{
  EventRecord, EventLog, of_run, max_seq, next_sequence, new_record, append, by_seq, list_events,
}

-- The numbers of the rows run from `n + 1` on.
abbrev pub IsNumbered : ℕ → List EventRecord → Type 0
IsNumbered n [] = Unit
IsNumbered n (e ∷ es) = (e.seq ≡ n + 1) × IsNumbered (n + 1) es

-- Each run's rows are numbered from 1.
pub record IsWellFormed (log : EventLog) : Type 0 where
  pub numbered : (r : String) → IsNumbered 0 (keep (of_run r) log)

IsNumbered-bound :
    (n : ℕ) (k : ℕ) (es : List EventRecord)
    → k ≤ n + 1
    → IsNumbered n es
    → All (λ e. leb k e.seq ≡ true) es
IsNumbered-bound n k [] h v = tt
IsNumbered-bound n k (e ∷ es) h v = (ground arith, IsNumbered-bound (n + 1) k es (omega arith) v.1)

IsNumbered-IsSorted : (n : ℕ) (es : List EventRecord) → IsNumbered n es → IsSorted by_seq es
IsNumbered-IsSorted n [] v = tt
IsNumbered-IsSorted n (e ∷ es) v =
    (IsNumbered-bound (n + 1) e.seq es (omega arith) v.1, IsNumbered-IsSorted (n + 1) es v.1)

-- Reading a run back gives its rows in the order of the appends.
pub list_events-eq-keep :
    (log : EventLog) (r : String) → IsWellFormed log → list_events log r ≡ keep (of_run r) log
unfolding list_events
list_events-eq-keep log r w =
    sort_by_sorted by_seq (keep (of_run r) log) (IsNumbered-IsSorted 0 _ (w.numbered r))

max_seq-keep : (r : String) (log : EventLog) → max_seq r log ≡ max_seq r (keep (of_run r) log)
unfolding max_seq
max_seq-keep r [] = refl
max_seq-keep r (e ∷ es) = ground (arith, max_seq-keep r es)

max_seq_numbered :
    (r : String) (n : ℕ) (log : EventLog)
    → IsNumbered n (keep (of_run r) log)
    → max n (max_seq r log) ≡ n + length (keep (of_run r) log)
unfolding max_seq
max_seq_numbered r n [] v = omega arith
max_seq_numbered r n (e ∷ es) v =
    ground (arith, max_seq_numbered r (n + 1) es, max_seq_numbered r n es)

-- In a well-formed log, the next sequence number of a run is one more than the number of its rows.
pub next_sequence-length :
    (log : EventLog) (r : String)
    → IsWellFormed log
    → next_sequence log r ≡ length (keep (of_run r) log) + 1
unfolding next_sequence
next_sequence-length log r w = omega (arith, max_seq_numbered r 0 log (w.numbered r))

IsNumbered-append :
    (n : ℕ) (es : List EventRecord) (e : EventRecord)
    → IsNumbered n es
    → e.seq ≡ n + length es + 1
    → IsNumbered n (es ++ e ∷ [])
IsNumbered-append n [] e v h = (omega arith, tt)
IsNumbered-append n (x ∷ es) e v h = (v.0, IsNumbered-append (n + 1) es e v.1 (omega arith))

module _ (log : EventLog) (r : String) (st : RunState) (ty : EventType) (p : Payload)
    (t : String) where
  -- One more event of the run at the end, and nothing new for the other runs.
  keep-append_record :
      (s : String)
      → keep (of_run s) (append log r st ty p t) ≡ (
          if r == s
          then keep (of_run s) log ++ new_record log r st ty p t ∷ []
          else keep (of_run s) log)
  unfolding append new_record
  keep-append_record s = rw keep-append (ground (arith, append-nil (keep (of_run s) log)))

  -- Appending to a log in which the rows of every run are numbered from 1 without gaps, in the order
  -- of the appends, leaves such a log.
  pub append-IsWellFormed : IsWellFormed log → IsWellFormed (append log r st ty p t)
  unfolding new_record
  append-IsWellFormed w = record {
    numbered = λ s. rw keep-append_record (numbered_after s (Bool-cases (r == s)));
  }
    where
      follows :
          (s : String)
          → r ≡ s
          → (new_record log r st ty p t).seq ≡ 0 + length (keep (of_run s) log) + 1
      follows s e =
          omega (
            arith,
            next_sequence-length log r w,
            ap (λ (x : String). length (keep (of_run x) log)) e,
          )

      numbered_after :
          (s : String)
          → ((r == s) ≡ true) ⊎ ((r == s) ≡ false)
          → IsNumbered 0 (
              if r == s
              then keep (of_run s) log ++ new_record log r st ty p t ∷ []
              else keep (of_run s) log)
      numbered_after s (inl same) =
          rw same (IsNumbered-append 0 _ _ (w.numbered s) (follows s ((eq_iff r s).0 same)))
      numbered_after s (inr other) = rw other (w.numbered s)

  -- In a well-formed log, an appended event is read back at the end of its run, after the events read
  -- before, and every other run reads as before.
  pub list_events-append :
      (s : String)
      → IsWellFormed log
      → list_events (append log r st ty p t) s ≡ (
          if r == s
          then list_events log s ++ new_record log r st ty p t ∷ []
          else list_events log s)
  list_events-append s w =
      rw
        (
          list_events-eq-keep (append log r st ty p t) s (append-IsWellFormed w),
          list_events-eq-keep log s w,
        )
        (keep-append_record s)

  pub list_events-append_self :
      IsWellFormed log
      → list_events (append log r st ty p t) r
        ≡ list_events log r ++ new_record log r st ty p t ∷ []
  list_events-append_self w = rw (list_events-append r w) (rw (eq_refl r))

pub empty-IsWellFormed : IsWellFormed []
empty-IsWellFormed = record { numbered = λ r. tt }
