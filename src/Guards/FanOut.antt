-- ===== src/Guards/FanOut.antt =====
-- src/multi_bot_agentic/fanout.py: tasks that run in parallel, each in a thread of its own.
pub mod Ordered
use Prim.Native.String.{◌++◌}
use multi_bot_agentic.Prelude.{
  ℕ, zero, suc, String, Bool, true, false, ◌&&◌, not, Option, none, some, List, [], ◌∷◌, length,
  map, ltb, if◌then◌else◌,
}
use multi_bot_agentic.Prelude.Text.{is_empty, show_nat}
use multi_bot_agentic.Exn.{Exn, Result, ok, err, value_error, message, raise_if, ◌>>◌}

pub record FanOutTask : Type 0 where
  pub task_id : String
  pub goal : String
  pub bot_id : Option String

pub record FanOutResult : Type 0 where
  pub task_id : String
  pub success : Bool
  pub answer : String
  pub error : Option String

pub record ParallelFanOut : Type 0 where
  pub max_workers : ℕ
  pub max_tasks : ℕ

unfoldable pub init : ℕ → ℕ → Result ParallelFanOut
init max_workers max_tasks = do
  raise_if (ltb max_workers 1) (value_error "max_workers must be >= 1")
  raise_if (ltb max_tasks 1) (value_error "max_tasks must be >= 1")
  ok (record { max_workers = max_workers; max_tasks = max_tasks })

-- `str(exc) or exc.__class__.__name__`
unfoldable pub error_text : (Exn → String) → Exn → String
unfolding message
error_text class_name exc = if is_empty (message exc) then class_name exc else message exc

-- `_invoke`, for what the worker does with each task.
unfoldable pub invoke :
    (Exn → String) → (FanOutTask → Result FanOutResult) → FanOutTask → FanOutResult
unfolding error_text
invoke class_name worker task = elim (worker task) [
  | ok result ↦ result
  | err exc ↦ record {
    task_id = task.task_id;
    success = false;
    answer = "";
    error = some (error_text class_name exc);
  }
]

-- `ordered[index] = result`
unfoldable pub set_slot :
    ℕ → Option FanOutResult → List (Option FanOutResult) → List (Option FanOutResult)
set_slot index result [] = []
set_slot zero result (slot ∷ slots) = result ∷ slots
set_slot (suc index) result (slot ∷ slots) = slot ∷ set_slot index result slots

-- What a slot holds, and nothing out of range.
unfoldable pub slot_at : List (Option FanOutResult) → ℕ → Option FanOutResult
slot_at [] index = none
slot_at (slot ∷ slots) zero = slot
slot_at (slot ∷ slots) (suc index) = slot_at slots index

-- The loop over the futures in the order in which they complete; `done` holds their results.
unfoldable pub fill :
    List (Option FanOutResult) → List ℕ → List (Option FanOutResult) → List (Option FanOutResult)
unfolding set_slot slot_at
fill done [] ordered = ordered
fill done (index ∷ completed) ordered =
    fill done completed (set_slot index (slot_at done index) ordered)

unfoldable pub present : List (Option FanOutResult) → List FanOutResult
present [] = []
present (none ∷ slots) = present slots
present (some result ∷ slots) = result ∷ present slots

unfoldable pub empty_slots : List FanOutTask → List (Option FanOutResult)
empty_slots [] = []
empty_slots (task ∷ tasks) = none ∷ empty_slots tasks

module _ (class_name : Exn → String) (worker : FanOutTask → Result FanOutResult) where
  unfoldable pub outcomes : List FanOutTask → List (Option FanOutResult)
  unfolding invoke
  outcomes tasks = map (λ task. some (invoke class_name worker task)) tasks

  -- `run`, whose tasks complete in the order `completed` of their indices.
  unfoldable pub run : ParallelFanOut → List FanOutTask → List ℕ → Result (List FanOutResult)
  unfolding outcomes fill present empty_slots
  run pool tasks completed =
      if ltb pool.max_tasks (length tasks)
      then err (value_error ("max_tasks exceeded (" ++ (show_nat pool.max_tasks ++ ")")))
      else ok (present (fill (outcomes tasks) completed (empty_slots tasks)))

-- The texts that `merge_answers` joins.
unfoldable pub answers : List FanOutResult → List String
answers [] = []
answers (result ∷ results) =
    let rest = answers results in
    if result.success && not (is_empty result.answer) then result.answer ∷ rest else rest

-- `separator.join(parts)`
unfoldable pub join_parts : String → List String → String
join_parts separator [] = ""
join_parts separator (part ∷ []) = part
join_parts separator (part ∷ next ∷ parts) =
    part ++ (separator ++ join_parts separator (next ∷ parts))

unfoldable pub merge_answers : List FanOutResult → String → String
unfolding answers join_parts
merge_answers results separator = join_parts separator (answers results)
