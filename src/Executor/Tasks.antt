-- ===== src/Executor/Tasks.antt =====
-- The executor's tasks: `_pending_tasks`, `_ready_tasks`, and the part of `_wait_for_ready_callbacks` that
-- yields tasks in progress. Tasks, nodes and entities are numbers; whether a task is done or cancelled is a test.
pub mod Round
mod Samples
use rclpy.Prelude.{
  ℕ, suc, Bool, true, false, not, Option, none, some, List, [], ◌∷◌, ◌++◌, length, Result, ok, err,
  ◌>>=◌, if◌then◌else◌, nat_eq, contains,
}
use rclpy.Dict
use rclpy.Dict.{Dict}

pub record TaskData : Type 0 where
  pub source_node : Option ℕ
  pub source_entity : Option ℕ

pub record Tasks : Type 0 where
  pub pending_tasks : Dict ℕ TaskData
  pub ready_tasks : List ℕ
  pub has_guard : Bool
  pub triggers : ℕ  -- how often the guard condition was triggered

pub record Yield : Type 0 where
  pub task : ℕ
  pub entity : Option ℕ
  pub node : Option ℕ

pub data Error : Type 0 where
  index_error key_error : Error

unfoldable pub call_task_in_next_spin : ℕ → Tasks → Tasks
call_task_in_next_spin task ts = record ts {
  ready_tasks = ts.ready_tasks ++ task ∷ [];
  triggers = if ts.has_guard then suc ts.triggers else ts.triggers;
}

-- `create_task`, for the new task that it makes
unfoldable pub create_task : ℕ → Tasks → Tasks
create_task task ts = call_task_in_next_spin task (record ts {
  pending_tasks =
      Dict.set ts.pending_tasks task (record { source_node = none; source_entity = none });
})

-- The loop that gets rid of tasks, over `list(self._pending_tasks.keys())`.
unfoldable pub drop_finished : (ℕ → Bool) → List ℕ → Dict ℕ TaskData → Dict ℕ TaskData
drop_finished finished [] pending = pending
drop_finished finished (task ∷ tasks) pending =
    drop_finished finished tasks (if finished task then Dict.del pending task else pending)

-- What the other threads and the code behind a `yield` do during one round: which tasks are finished when
-- the round begins, and which are appended before the next one.
pub record Moment : Type 0 where
  pub finished : ℕ → Bool
  pub appended : List ℕ

-- `node is None or node in nodes_to_use`
abbrev pub is_used : List ℕ → Option ℕ → Bool
is_used nodes none = true
is_used nodes (some n) = contains n nodes

-- A task from the left of the deque: what is yielded, and what is appended.
unfoldable pub visit :
    List ℕ → Dict ℕ TaskData → (ℕ → Bool) → ℕ → Result Error (List Yield × List ℕ)
visit nodes pending finished task =
    if finished task then ok ([], []) else elim (Dict.get pending task) [
      | none ↦ err key_error
      | some d ↦
          if is_used nodes d.source_node
          then ok (record { task = task; entity = d.source_entity; node = d.source_node } ∷ [], [])
          else ok ([], task ∷ [])
    ]

-- `for _ in range(ready_tasks_count)`, one moment for each round: what is yielded and the deque behind it.
unfoldable pub yield_ready :
    List ℕ → Dict ℕ TaskData → List Moment → List ℕ → Result Error (List Yield × List ℕ)
yield_ready nodes pending [] ready = ok ([], ready)
yield_ready nodes pending (m ∷ ms) [] = err index_error
yield_ready nodes pending (m ∷ ms) (task ∷ ready) = do
  visited ← visit nodes pending m.finished task
  rest ← yield_ready nodes pending ms (ready ++ (visited.1 ++ m.appended))
  ok (visited.0 ++ rest.0, rest.1)
