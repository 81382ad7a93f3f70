-- ===== src/Future/Samples.antt =====
-- A future with two waiters that is cancelled and read.
use rclpy.Prelude.{ℕ, ◌≡◌, refl, false, none, some, List, [], ◌∷◌, ◌++◌, map, ok, String}
use rclpy.Future.{
  callback, task, Effect, create_task, call_task_in_next_spin, Future, pending,
  schedule_or_invoke_done_callbacks, cancel, set_result, fetch_exception, get_result,
  add_done_callback,
}
use rclpy.Future.Dispatch.{
  Call, adding, giving, cancelling, perform, perform_all, target, IsSettled, perform_all-registered,
}

abbrev waited_for : Future ℕ String
waited_for = record {
  state = pending;
  result = none;
  exception = none;
  exception_fetched = false;
  callbacks = callback 5 ∷ task 2 ∷ [];
  executor = some 1;
}

waited_for-IsSettled : IsSettled waited_for
waited_for-IsSettled = record { empty = λ h. cc }

-- A callback that is added late is handed on at once; cancelling a finished future does nothing.
abbrev calls : List (Call ℕ String)
calls = adding 6 ∷ giving 40 ∷ cancelling ∷ adding 7 ∷ []

unfoldable run_calls : Future ℕ String × List Effect
unfolding perform perform_all schedule_or_invoke_done_callbacks cancel set_result add_done_callback
run_calls = perform_all calls waited_for

effects_of_calls :
    run_calls.1 ≡ create_task 5 ∷ call_task_in_next_spin 2 ∷ create_task 6 ∷ create_task 7 ∷ []
unfolding run_calls
effects_of_calls = refl

result_of_calls : (get_result run_calls.0).0 ≡ ok (some 40)
unfolding run_calls get_result fetch_exception
result_of_calls = refl

perform_all-registered_example :
    let (f, effects) = perform_all calls waited_for in
    IsSettled f
    × (map target effects ++ f.callbacks ≡ callback 5 ∷ task 2 ∷ callback 6 ∷ callback 7 ∷ [])
perform_all-registered_example = perform_all-registered calls waited_for waited_for-IsSettled
