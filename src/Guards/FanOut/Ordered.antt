-- ===== src/Guards/FanOut/Ordered.antt =====
-- fanout.py: the results come in the order of the tasks, however the tasks complete.

use multi_bot_agentic.Prelude.{
  ℕ, zero, suc, ◌≤◌, ◌<◌, ◌≡◌, ◌≢◌, ◌⊎◌, inl, inr, false, refl, ap, ◌∙◌, String, true, false,
  Option, none, some, List, [], ◌∷◌, length, map, contains, ltb, ◌==◌, nat_eq, eq_iff,
  if◌then◌else◌, arith,
}
use multi_bot_agentic.Exn.{Exn, Result, Result-cases, ok, err, message}
use multi_bot_agentic.Prelude.Text.{is_empty}
use multi_bot_agentic.Guards.FanOut.{
  error_text, FanOutTask, FanOutResult, ParallelFanOut, invoke, set_slot, slot_at, fill, present,
  empty_slots, outcomes, run,
}

slot_at-set_slot :
    (i j : ℕ) (r : Option FanOutResult) (slots : List (Option FanOutResult))
    → j < length slots
    → slot_at (set_slot i r slots) j ≡ (if i == j then r else slot_at slots j)
unfolding slot_at set_slot
slot_at-set_slot i j r [] h = absurd (omega arith)
slot_at-set_slot zero zero r (s ∷ slots) h = ground arith
slot_at-set_slot zero (suc j) r (s ∷ slots) h = ground arith
slot_at-set_slot (suc i) zero r (s ∷ slots) h = ground arith
slot_at-set_slot (suc i) (suc j) r (s ∷ slots) h =
    slot_at-set_slot i j r slots (omega arith) ∙ ground arith

length-set_slot :
    (i : ℕ) (r : Option FanOutResult) (slots : List (Option FanOutResult))
    → length (set_slot i r slots) ≡ length slots
unfolding set_slot
length-set_slot i r [] = refl
length-set_slot zero r (s ∷ slots) = refl
length-set_slot (suc i) r (s ∷ slots) = omega (arith, length-set_slot i r slots)

slot_at-fill :
    (done : List (Option FanOutResult)) (completed : List ℕ) (slots : List (Option FanOutResult))
    (j : ℕ)
    → j < length slots
    → slot_at (fill done completed slots) j
      ≡ (if contains j completed then slot_at done j else slot_at slots j)
unfolding fill
slot_at-fill done [] slots j h = refl
slot_at-fill done (i ∷ completed) slots j h =
    slot_at-fill done completed (set_slot i (slot_at done i) slots) j
      (omega (arith, h, length-set_slot i (slot_at done i) slots))
    ∙ ground (arith, eq_iff i j, slot_at-set_slot i j (slot_at done i) slots h)

length-fill :
    (done : List (Option FanOutResult)) (completed : List ℕ) (slots : List (Option FanOutResult))
    → length (fill done completed slots) ≡ length slots
unfolding fill
length-fill done [] slots = refl
length-fill done (i ∷ completed) slots =
    length-fill done completed (set_slot i (slot_at done i) slots)
    ∙ length-set_slot i (slot_at done i) slots

cons_eq :
    (r t : FanOutResult) (rs ts : List FanOutResult) → some r ≡ some t → rs ≡ ts → r ∷ rs ≡ t ∷ ts
cons_eq r t rs ts h k = cc (h, k)

-- Slots that hold each item are filled.
present-all :
    {A : Type 0} (f : A → FanOutResult) (xs : List A) (slots : List (Option FanOutResult))
    → length slots ≡ length xs
    → ((j : ℕ) → j < length xs → slot_at slots j ≡ slot_at (map (λ x. some (f x)) xs) j)
    → present slots ≡ map f xs
unfolding slot_at present
present-all f [] [] e h = refl
present-all f [] (s ∷ slots) e h = absurd (omega (arith, e))
present-all f (x ∷ xs) [] e h = absurd (omega (arith, e))
present-all f (x ∷ xs) (none ∷ slots) e h = cc (h 0 (omega arith))
present-all f (x ∷ xs) (some r ∷ slots) e h =
    cons_eq r (f x) (present slots) (map f xs) (h 0 (omega arith))
      (present-all f xs slots (omega (arith, e)) (λ j k. h (suc j) (omega arith)))

not_less : (m n : ℕ) → n ≤ m → ltb m n ≡ false
not_less m n h = ground (arith, h)

length-empty_slots : (tasks : List FanOutTask) → length (empty_slots tasks) ≡ length tasks
unfolding empty_slots
length-empty_slots [] = refl
length-empty_slots (task ∷ tasks) = omega (arith, length-empty_slots tasks)

-- What a worker's call makes of its task: the result that it returned, or the failure that stands for
-- the exception, under the task's identifier and with its text, or its class's name if it has none.
abbrev pub Answers : (Exn → String) → Result FanOutResult → FanOutTask → FanOutResult → Type 0
Answers class_name (ok given) task r = r ≡ given
Answers class_name (err exc) task r =
    (r.task_id ≡ task.task_id)
    × (r.success ≡ false)
    × (r.answer ≡ "")
    × (((message exc ≡ "") × (r.error ≡ some (class_name exc)))
        ⊎ ((message exc ≢ "") × (r.error ≡ some (message exc))))

-- One result for each task, in the order of the tasks.
abbrev pub Answered :
    (Exn → String)
    → (FanOutTask → Result FanOutResult)
    → List FanOutTask
    → List FanOutResult
    → Type 0
Answered class_name worker [] [] = Unit
Answered class_name worker (task ∷ tasks) (r ∷ rs) =
    Answers class_name (worker task) task r × Answered class_name worker tasks rs
Answered class_name worker _ _ = ⊥

error_text-message :
    (class_name : Exn → String) (exc : Exn)
    → ((message exc ≡ "") × (some (error_text class_name exc) ≡ some (class_name exc)))
      ⊎ ((message exc ≢ "") × (some (error_text class_name exc) ≡ some (message exc)))
unfolding error_text
error_text-message class_name exc = by_text (message exc) (class_name exc)
  where
    by_text :
        (m n : String)
        → ((m ≡ "") × (some (if is_empty m then n else m) ≡ some n))
          ⊎ ((m ≢ "") × (some (if is_empty m then n else m) ≡ some m))
    by_text String.[] n = inl (refl, refl)
    by_text (String.◌∷◌ c s) n = inr ((λ e. cc e), refl)

invoke-Answers :
    (class_name : Exn → String) (worker : FanOutTask → Result FanOutResult) (task : FanOutTask)
    → Answers class_name (worker task) task (invoke class_name worker task)
unfolding invoke
invoke-Answers class_name worker task = elim (Result-cases (worker task)) [
  | inr (given, e) ↦ rw (e, invoke) refl
  | inl (exc, e) ↦ rw (e, invoke) (refl, refl, refl, error_text-message class_name exc)
]

map-Answered :
    (class_name : Exn → String) (worker : FanOutTask → Result FanOutResult)
    (tasks : List FanOutTask)
    → Answered class_name worker tasks (map (invoke class_name worker) tasks)
map-Answered class_name worker [] = tt
map-Answered class_name worker (task ∷ tasks) =
    (invoke-Answers class_name worker task, map-Answered class_name worker tasks)

run-map :
    (class_name : Exn → String) (worker : FanOutTask → Result FanOutResult) (pool : ParallelFanOut)
    (tasks : List FanOutTask) (completed : List ℕ)
    → length tasks ≤ pool.max_tasks
    → ((j : ℕ) → j < length tasks → contains j completed ≡ true)
    → run class_name worker pool tasks completed ≡ ok (map (invoke class_name worker) tasks)
unfolding run outcomes
run-map class_name worker pool tasks completed few every =
    rw (not_less pool.max_tasks (length tasks) few) (
      ap ok (
        present-all (invoke class_name worker) tasks
          (fill (outcomes class_name worker tasks) completed (empty_slots tasks))
          (length-fill (outcomes class_name worker tasks) completed (empty_slots tasks)
            ∙ length-empty_slots tasks)
          (λ j h.
            slot_at-fill (outcomes class_name worker tasks) completed (empty_slots tasks) j
              (omega (arith, h, length-empty_slots tasks))
            ∙ rw (every j h) refl)))

-- Where there are no more tasks than the limit, and every task completes, in whatever order, `run`
-- answers one result for each task, in the order of the tasks: what the worker returned, or, if it
-- raised, a failure with no answer, under the task's identifier, whose error is the exception's text,
-- or its class's name if the text is empty.
pub run_in_order :
    (class_name : Exn → String) (worker : FanOutTask → Result FanOutResult) (pool : ParallelFanOut)
    (tasks : List FanOutTask) (completed : List ℕ)
    → length tasks ≤ pool.max_tasks
    → ((j : ℕ) → j < length tasks → contains j completed ≡ true)
    → (rs : List FanOutResult) × (run class_name worker pool tasks completed ≡ ok rs)
      × Answered class_name worker tasks rs
run_in_order class_name worker pool tasks completed few every = (
  map (invoke class_name worker) tasks,
  run-map class_name worker pool tasks completed few every,
  map-Answered class_name worker tasks,
)
