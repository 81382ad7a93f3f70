-- ===== src/ActionServer/Goals.antt =====
-- rclpy/rclpy/action/server.py, the rest of class ServerGoalHandle, and the execution of a goal. A result response is
-- the status with the result; `empty` is `Result()`. The execute callback is user code: what it returned, or that it
-- raised, and the server behind it.
pub mod Ends
mod Samples
use rclpy.Prelude.{
  ℕ, suc, Bool, true, false, not, ◌&&◌, Option, none, some, List, [], ◌∷◌, ◌++◌, Result, ok, err,
  if◌then◌else◌, ◌==◌, nat_eq,
}
use rclpy.Dict
use rclpy.Dict.{Dict}
use rclpy.Future
use rclpy.Future.{Future, Effect}
use rclpy.ActionServer.{
  GoalEvent, execute, succeed, abort, canceled, GoalStates, Error, rcl_error, key_error,
  ActionServer, update_state,
}

-- The goal handles of the C library with their status.
pub record GoalStatuses (S : Type 0) : Type 0 where
  pub states : GoalStates S
  pub get_status : S → ℕ

-- `GoalStatus`
abbrev pub status_unknown : ℕ
status_unknown = 0

abbrev pub status_executing : ℕ
status_executing = 2

abbrev pub status_canceling : ℕ
status_canceling = 3

module _ {S Res E : Type 0} where
  -- The C library's handle of a goal: `none` where the goal was destroyed.
  abbrev pub handle_of : ℕ → ActionServer S (ℕ × Res) E → Option S
  handle_of id server = elim (Dict.get server.goal_handles id) [ none ↦ none | some h ↦ h ]

module _ {S Res E : Type 0} (statuses : GoalStatuses S) where
  -- The properties `status`, `is_active` and `is_cancel_requested`.
  unfoldable pub status : ℕ → ActionServer S (ℕ × Res) E → ℕ
  status id server = elim (handle_of id server) [
    | none ↦ status_unknown
    | some h ↦ statuses.get_status h
  ]

  unfoldable pub is_active : ℕ → ActionServer S (ℕ × Res) E → Bool
  is_active id server = elim (handle_of id server) [
    | none ↦ false
    | some h ↦ statuses.states.is_active h
  ]

  unfoldable pub is_cancel_requested : ℕ → ActionServer S (ℕ × Res) E → Bool
  unfolding status
  is_cancel_requested id server = status id server == status_canceling

  -- `_update_state` on the goal that the server tracks.
  unfoldable pub update_goal :
      GoalEvent
      → ℕ
      → ActionServer S (ℕ × Res) E
      → Result Error (Unit {0}) × ActionServer S (ℕ × Res) E
  unfolding update_state
  update_goal event id server = elim (update_state statuses.states event (handle_of id server)) [
    | err e ↦ (err e, server)
    | ok (none, _) ↦ (ok tt, server)
    | ok (some h, notified) ↦ (
      ok tt,
      record server {
        goal_handles = Dict.set server.goal_handles id (some h);
        done_notices = if notified then suc server.done_notices else server.done_notices;
      },
    )
  ]

  -- `self._result_futures[goal].set_result((status, result))`
  unfoldable pub answer :
      ℕ → Res → ActionServer S (ℕ × Res) E → Result Error (List Effect) × ActionServer S (ℕ × Res) E
  unfolding status
  answer id result server = elim (Dict.get server.result_futures id) [
    | none ↦ (err key_error, server)
    | some f ↦
        let (f', effects) = Future.set_result (status id server, result) f in
        (ok effects, record server { result_futures = Dict.set server.result_futures id f' })
  ]

  -- `succeed`, `abort` and `canceled`, by their event.
  unfoldable pub conclude :
      GoalEvent
      → ℕ
      → Option Res
      → ActionServer S (ℕ × Res) E
      → Result Error (List Effect) × ActionServer S (ℕ × Res) E
  unfolding update_goal answer
  conclude event id response server =
      let updated = update_goal event id server in
      elim updated.0 [
        | err e ↦ (err e, updated.1)
        | ok _ ↦ elim response [
          | none ↦ (ok [], updated.1)
          | some result ↦ answer id result updated.1
        ]
      ]

  -- `executing`
  unfoldable pub executing :
      ℕ → ActionServer S (ℕ × Res) E → Result Error (Unit {0}) × ActionServer S (ℕ × Res) E
  unfolding update_goal status
  executing id server =
      if status id server == status_executing
      then (ok tt, server)
      else update_goal execute id server

  -- `execute`, up to the task of `notify_execute`.
  unfoldable pub begin_goal :
      ℕ → ActionServer S (ℕ × Res) E → Result Error (Unit {0}) × ActionServer S (ℕ × Res) E
  unfolding executing is_cancel_requested
  begin_goal id server =
      if not (is_cancel_requested id server) then executing id server else (ok tt, server)

  -- `publish_feedback`, behind the type test: whether the feedback is published.
  unfoldable pub publish_feedback : ℕ → ActionServer S (ℕ × Res) E → Bool
  unfolding status
  publish_feedback id server = status id server == status_executing

  -- `destroy`
  unfoldable pub destroy_goal : ℕ → ActionServer S (ℕ × Res) E → ActionServer S (ℕ × Res) E
  destroy_goal id server = record server { goal_handles = Dict.set server.goal_handles id none }

  -- `_execute_goal` behind the execute callback.
  unfoldable pub finish_goal :
      ℕ → Res → ActionServer S (ℕ × Res) E → Result Error (List Effect) × ActionServer S (ℕ × Res) E
  unfolding conclude answer is_active
  finish_goal id execute_result server =
      let aborted =
        if is_active id server then conclude abort id none server else (ok [], server) in
      elim aborted.0 [ err e ↦ (err e, aborted.1) | ok _ ↦ answer id execute_result aborted.1 ]

  -- `_execute_goal`
  unfoldable pub execute_goal :
      Res
      → (ActionServer S (ℕ × Res) E → Option Res × ActionServer S (ℕ × Res) E)
      → ℕ
      → ActionServer S (ℕ × Res) E
      → Result Error (List Effect) × ActionServer S (ℕ × Res) E
  unfolding finish_goal
  execute_goal empty execute_callback id server =
      let called = execute_callback server in
      finish_goal id (elim called.0 [ none ↦ empty | some result ↦ result ]) called.1
