-- ===== src/ActionClient/Samples.antt =====
-- An action client with one goal that was accepted, and a goal that is rejected.
use rclpy.Prelude.{
  ℕ, ◌≡◌, refl, true, false, none, some, String, List, [], ◌∷◌, ok, err, if◌then◌else◌, nat_eq,
}
use rclpy.Dict
use rclpy.Client.{call_async}
use rclpy.ActionClient.{
  ActionClient, Effect, feedback, TakenData, runtime_error, key_error, new, send_goal_async,
  execute_goal, execute_feedback, execute_status, execute, remove_pending_goal_request,
}
use rclpy.ActionClient.Valid.{IsValid}
use rclpy.ActionClient.Runs.{new-IsValid, here, next, sends, Reach-no_key_error}
use rclpy.ActionClient.Feedback.{is_finished, execute_status-tracks}
use rclpy.ActionClient.Rejected.{send-rejected}

abbrev client : ActionClient ℕ ℕ String
client = new true

abbrev tracking : ActionClient ℕ ℕ String
tracking = record client {
  goal_handles = record { entries = (5, 0) ∷ [] };
  handles = record { entries = (0, record { goal_id = 5; accepted = true; status = 2 }) ∷ [] };
}

-- A second goal is accepted with the id of the first.
accepted_twice : (execute_goal 3 true 1 (send_goal_async 3 5 none tracking).1).0 ≡ err runtime_error
unfolding execute_goal send_goal_async new Dict.get Dict.set Dict.empty call_async
accepted_twice = refl

Reach-no_key_error_example :
    let c = (send_goal_async 3 5 (some 9) client).1 in
    IsValid c
    × ((taken : TakenData ℕ ℕ) (executor : ℕ) → (execute taken executor c).0 ≡ err key_error → ⊥)
Reach-no_key_error_example = Reach-no_key_error (next (here true) (sends 3 5 (some 9)))

-- The goal is aborted, behind a status of another one.
execute_status-tracks_example :
    Dict.get (execute_status ((4, 4) ∷ (5, 6) ∷ []) tracking).1.goal_handles 5
    ≡ (if is_finished 5 ((4, 4) ∷ (5, 6) ∷ []) then none else some 0)
unfolding new Dict.get
execute_status-tracks_example = execute_status-tracks ((4, 4) ∷ (5, 6) ∷ []) 5 0 tracking refl refl

send-rejected_example :
    let c1 = (send_goal_async 3 5 (some 9) client).1 in
    let (r, c2) = execute_goal 3 false 1 c1 in
    let c3 = remove_pending_goal_request client.pending_goal_requests.next_future c2 in
    ((effects : List Effect) × (r ≡ ok effects))
    × ((k : ℕ)
        → Dict.get c3.pending_goal_requests.pending_requests k
          ≡ Dict.get client.pending_goal_requests.pending_requests k)
    × ((k : ℕ)
        → Dict.get c3.goal_sequence_number_to_goal_id k
          ≡ Dict.get client.goal_sequence_number_to_goal_id k)
    × (c3.goal_handles ≡ client.goal_handles)
    × ((msg : ℕ) → execute_feedback 5 msg c3 ≡ feedback 9 msg ∷ [])
unfolding new Dict.get Dict.empty
send-rejected_example = send-rejected client (new-IsValid true) 3 5 9 1 refl
