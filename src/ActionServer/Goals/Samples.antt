-- ===== src/ActionServer/Goals/Samples.antt =====
-- A goal whose callback succeeds with one result and returns another one.
use rclpy.Prelude.{
  ℕ, ◌≡◌, refl, true, false, Option, none, some, String, List, [], ◌∷◌, ok, nat_eq, ◌==◌,
  if◌then◌else◌,
}
use rclpy.Dict
use rclpy.Future
use rclpy.Future.{Future}
use rclpy.ActionServer.{GoalEvent, execute, succeed, abort, ActionServer}
use rclpy.ActionServer.Goals.{GoalStatuses, conclude, answer, update_goal, execute_goal, status}
use rclpy.ActionServer.Goals.Ends.{IsEnded, execute_goal-ends}

-- A status stands for itself: executing goals succeed, and active ones can be aborted.
abbrev next_status : GoalEvent → ℕ → Option ℕ
next_status execute s = if s == 1 then some 2 else none
next_status succeed s = if s == 2 then some 4 else none
next_status abort s = if s == 2 then some 6 else none
next_status _ s = none

abbrev statuses : GoalStatuses ℕ
statuses = record {
  states = record { update = next_status; is_active = λ s. s == 2 };
  get_status = λ s. s;
}

abbrev server : ActionServer ℕ (ℕ × String) String
server = record {
  goal_handles = record { entries = (1, some 2) ∷ [] };
  result_futures = record { entries = (1, Future.new none) ∷ [] };
  asked = [];
  done_notices = 0;
}

abbrev callback :
    ActionServer ℕ (ℕ × String) String → Option String × ActionServer ℕ (ℕ × String) String
callback s = (some "returned", (conclude statuses succeed 1 (some "given") s).1)

abbrev first_result : Future (ℕ × String) String
first_result = record {
  state = Future.finished;
  result = some (4, "given");
  exception = none;
  exception_fetched = false;
  callbacks = [];
  executor = none;
}

execute_goal-ends_example :
    let o = execute_goal statuses "" callback 1 server in
    ((effects : List Future.Effect) × (o.0 ≡ ok effects)) × IsEnded statuses 1 "returned" o.1
unfolding conclude update_goal answer status Dict.get Dict.set Future.set_result Future.new
    Future.schedule_or_invoke_done_callbacks
execute_goal-ends_example =
    execute_goal-ends statuses 1 "" callback server first_result refl (λ h e a. inactive h e a)
  where
    inactive :
        (h : ℕ)
        → ◌≡◌ {A = Option ℕ} (some 4) (some h)
        → (h == 2) ≡ true
        → (h' : ℕ) × (next_status abort h ≡ some h') × ((h' == 2) ≡ false)
    inactive h e a = (6, rw a refl, refl)
