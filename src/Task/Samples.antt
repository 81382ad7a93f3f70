-- ===== src/Task/Samples.antt =====
-- A coroutine that awaits a future once, as a number of steps that are left.
use rclpy.Prelude.{
  ℕ, zero, suc, ◌≡◌, inl, refl, false, none, some, String, List, [], ◌∷◌, Result, ok,
}
use rclpy.Task
use rclpy.Future
use rclpy.Future.{Future, pending, Waiter, Effect, create_task, call_task_in_next_spin}
use rclpy.Task.{
  Task, Run, returned, yielded, Yielded, a_future, other, call, execute_step, suspend,
  add_resume_callback, complete_task,
}
use rclpy.Task.Resume.{Ends, call-Ends}

abbrev steps : ℕ → Run ℕ String ℕ
steps zero = returned 42
steps (suc n) = yielded a_future n

abbrev awaited : Future ℕ String
awaited = record {
  state = pending;
  result = none;
  exception = none;
  exception_fetched = false;
  callbacks = [];
  executor = none;
}

abbrev asleep : ℕ → Task ℕ String ℕ
asleep n = record {
  future = record awaited { callbacks = Waiter.callback 5 ∷ []; executor = some 1 };
  handler = some n;
  executing = false;
  locked = false;
}

unfoldable first_step : Result Task.Error (List Effect) × Task ℕ String ℕ × Future ℕ String
unfolding call execute_step suspend add_resume_callback complete_task Future.add_waiting_task
    Future.set_executor Future.set_result Future.schedule_or_invoke_done_callbacks
first_step = call 3 steps awaited (asleep 1)

first_step_waits : first_step.2.callbacks ≡ Waiter.task 3 ∷ []
unfolding first_step
first_step_waits = refl

unfoldable last_step : Result Task.Error (List Effect) × Task ℕ String ℕ × Future ℕ String
unfolding call execute_step suspend add_resume_callback complete_task Future.add_waiting_task
    Future.set_executor Future.set_result Future.schedule_or_invoke_done_callbacks
last_step = call 3 steps awaited (asleep 0)

last_step_hands_on : last_step.0 ≡ ok (create_task 5 ∷ [])
unfolding last_step
last_step_hands_on = refl

call-Ends_example : Ends 3 1 awaited (asleep 1).future (call 3 steps awaited (asleep 1))
call-Ends_example =
    call-Ends 3 1 steps 1 awaited (asleep 1) refl refl refl refl refl (inl refl) (λ rest e. cc)
