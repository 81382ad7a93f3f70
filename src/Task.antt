-- ===== src/Task.antt =====
-- rclpy/rclpy/task.py, class Task: a function or a coroutine that an executor runs in steps. `H` is the type of what is
-- left to run; one step of it is code of the user. A task and an executor are numbers.
pub mod Resume
mod Samples
use rclpy.Prelude.{
  ℕ, Bool, true, false, not, ◌&&◌, ◌||◌, Option, none, some, List, [], ◌∷◌, ◌++◌, Result, ok, err,
  if◌then◌else◌, ◌==◌,
}
use rclpy.Future
use rclpy.Future.{Future, Effect, call_task_in_next_spin, is_pending}

-- What a coroutine yields: a future, `None`, or something else.
pub data Yielded : Type 0 where
  a_future nothing other : Yielded

-- What a step of the handler comes to: the end of a function or a coroutine, or a yield of a coroutine with
-- what is left of it.
pub data Run (V E H : Type 0) : Type 0 where
  returned : V → Run V E H
  raised : E → Run V E H
  yielded : Yielded → H → Run V E H

pub record Task (V E H : Type 0) : Type 0 where
  pub future : Future V E
  pub handler : Option H
  pub executing : Bool
  pub locked : Bool

pub data Error : Type 0 where
  runtime_error type_error assertion_error : Error

module _ {V E H : Type 0} where
  unfoldable pub new : H → Option ℕ → Task V E H
  new handler executor = record {
    future = Future.new executor;
    handler = some handler;
    executing = false;
    locked = false;
  }

  unfoldable pub complete_task : Task V E H → Task V E H
  complete_task t = record t { handler = none }

  -- `cancel`, for a coroutine: it is closed, and nothing of it is left to run.
  unfoldable pub cancel : Bool → Task V E H → Task V E H × List Effect
  cancel is_coroutine t =
      let handler = if is_pending t.future && is_coroutine then none else t.handler in
      let (f, effects) = Future.cancel t.future in
      (record t { future = f; handler = handler }, effects)

module _ {W X : Type 0} where
  -- `_add_resume_callback`, on the awaited future
  unfoldable pub add_resume_callback : ℕ → ℕ → Future W X → Result Error (Future W X × List Effect)
  add_resume_callback id executor future = elim future.executor [
    | none ↦ ok (Future.add_waiting_task id (Future.set_executor (some executor) future))
    | some theirs ↦
        if not (theirs == executor)
        then err runtime_error
        else ok (Future.add_waiting_task id future)
  ]

  -- Where a coroutine yielded: what is next, with the awaited future.
  unfoldable pub suspend :
      ℕ → Yielded → Option ℕ → Future W X → Result Error (Future W X × List Effect)
  suspend id y none awaited = err runtime_error
  suspend id a_future (some executor) awaited = add_resume_callback id executor awaited
  suspend id nothing (some executor) awaited = ok (awaited, call_task_in_next_spin id ∷ [])
  suspend id other (some executor) awaited = err type_error

module _ {V E H W X : Type 0} where
  -- `__call__` behind its tests, while `_executing` is set. An exception leaves it set.
  unfoldable pub execute_step :
      ℕ → Run V E H → Future W X → Task V E H → Result Error (List Effect) × Task V E H × Future W X
  execute_step id (returned v) awaited t =
      let (f, effects) = Future.set_result v t.future in
      (ok effects, record (complete_task (record t { future = f })) { executing = false }, awaited)
  execute_step id (raised e) awaited t =
      let (f, effects) = Future.set_exception e t.future in
      (ok effects, record (complete_task (record t { future = f })) { executing = false }, awaited)
  execute_step id (yielded y h) awaited t = elim (suspend id y t.future.executor awaited) [
    | err e ↦ (err e, record t { handler = some h }, awaited)
    | ok (awaited', effects) ↦
        (ok effects, record t { handler = some h; executing = false }, awaited')
  ]

  -- The `finally` of `__call__`.
  abbrev pub release :
      Result Error (List Effect) × Task V E H × Future W X
      → Result Error (List Effect) × Task V E H × Future W X
  release (r, t, awaited) = (r, record t { locked = false }, awaited)

  -- `__call__`. The lock is held for the step and released behind it, also where the step raises.
  unfoldable pub call :
      ℕ
      → (H → Run V E H)
      → Future W X
      → Task V E H
      → Result Error (List Effect) × Task V E H × Future W X
  call id run awaited t =
      if (not (is_pending t.future) || t.executing) || t.locked
      then (ok [], t, awaited)
      else release (elim t.handler [
        | none ↦ (err assertion_error, record t { executing = true; locked = true }, awaited)
        | some h ↦ execute_step id (run h) awaited (record t { executing = true; locked = true })
      ])
