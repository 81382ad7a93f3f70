-- ===== src/ActionServer/Samples.antt =====
-- Three goals that are to be cancelled, of which the user accepts the last two.
use rclpy.Prelude.{
  ℕ, ◌≡◌, ◌≢◌, refl, Bool, true, false, not, Option, none, some, String, List, [], ◌∷◌, err, ◌==◌,
  nat_eq, arith,
}
use rclpy.Dict
use rclpy.Future
use rclpy.Future.{Future}
use rclpy.ActionServer.{
  GoalStates, ActionServer, key_error, execute_goal_request, execute_get_result_request,
  execute_expire_goals, update_state, cancel_one, cancel_loop, execute_cancel_request,
}
use rclpy.ActionServer.Cancel.{sweep, execute_cancel_request-sweep}
use rclpy.ActionServer.Paired.{IsPaired, operations-IsPaired}

-- A goal is active until it is cancelled twice.
abbrev two_states : GoalStates Bool
two_states = record { update = λ e active. if_active active; is_active = λ active. active }
  where
    if_active : Bool → Option Bool
    if_active true = some false
    if_active false = none

abbrev waiting : Future ℕ String
waiting = record {
  state = Future.pending;
  result = none;
  exception = none;
  exception_fetched = false;
  callbacks = [];
  executor = none;
}

abbrev server : ActionServer Bool ℕ String
server = record {
  goal_handles = record { entries = (1, some true) ∷ (2, some true) ∷ (3, some true) ∷ [] };
  result_futures = record { entries = (1, waiting) ∷ (2, waiting) ∷ (3, waiting) ∷ [] };
  asked = [];
  done_notices = 0;
}

abbrev not_one : ℕ → Bool
not_one g = not (g == 1)

unfoldable run_cancel : List ℕ × ActionServer Bool ℕ String
unfolding execute_cancel_request cancel_loop cancel_one update_state Dict.get Dict.set
run_cancel = execute_cancel_request two_states not_one (1 ∷ 2 ∷ 3 ∷ []) server

-- Goal 2 stays in the response, though nobody was asked about it.
cancelled_goals : run_cancel.0 ≡ 2 ∷ 3 ∷ []
unfolding run_cancel
cancelled_goals = refl

asked_goals : run_cancel.1.asked ≡ 1 ∷ 3 ∷ []
unfolding run_cancel
asked_goals = refl

execute_cancel_request-sweep_example :
    execute_cancel_request two_states not_one (1 ∷ 2 ∷ 3 ∷ []) server
    ≡ sweep two_states not_one (1 ∷ 2 ∷ 3 ∷ []) server
execute_cancel_request-sweep_example =
    execute_cancel_request-sweep two_states not_one (1 ∷ 2 ∷ 3 ∷ []) server
      (refl, (refl, (refl, tt)))

server-IsPaired : IsPaired server
unfolding Dict.get
server-IsPaired = record { at = λ id. same id }
  where
    same :
        (id : ℕ)
        → Dict.is_some (Dict.get server.goal_handles id)
          ≡ Dict.is_some (Dict.get server.result_futures id)
    same id = ground arith

operations-IsPaired_example :
    ((id : ℕ) (known accept : Bool) (handle : Option Bool)
      → IsPaired (execute_goal_request id known accept handle server).1)
    × ((id send : ℕ)
        → ((execute_get_result_request id send server).0 ≢ err key_error)
          × IsPaired (execute_get_result_request id send server).1)
    × ((accept : ℕ → Bool) (goals : List ℕ)
        → IsPaired (execute_cancel_request two_states accept goals server).1)
    × ((ids : List ℕ) → IsPaired (execute_expire_goals ids server).1)
operations-IsPaired_example = operations-IsPaired two_states server server-IsPaired
