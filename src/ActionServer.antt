-- ===== src/ActionServer.antt =====
-- rclpy/rclpy/action/server.py: the goals that an action server tracks. A goal is known by the number of its id,
-- and a goal info too, since the stamps of one goal agree. The states of goals are those of the C library.
pub mod Cancel
pub mod Goals
pub mod Paired
mod Samples
use rclpy.Prelude.{
  get_elem?, ℕ, zero, suc, ◌+◌, Bool, true, false, not, ◌&&◌, Option, none, some, List, [], ◌∷◌,
  ◌++◌, any, length, Result, ok, err, if◌then◌else◌, ◌==◌, nat_eq, remove,
}
use rclpy.Dict
use rclpy.Dict.{Dict, is_some}
use rclpy.Future
use rclpy.Future.{Future, Effect}

pub data GoalEvent : Type 0 where
  execute cancel_goal succeed abort canceled : GoalEvent

-- The goal handles of the C library: an invalid transition is an RCLError.
pub record GoalStates (S : Type 0) : Type 0 where
  pub update : GoalEvent → S → Option S
  pub is_active : S → Bool

pub data Error : Type 0 where
  rcl_error key_error : Error

-- The dictionaries of an `ActionServer`; a `ServerGoalHandle` is its `_goal_handle`, `none` once it was destroyed.
pub record ActionServer (S V E : Type 0) : Type 0 where
  pub goal_handles : Dict ℕ (Option S)
  pub result_futures : Dict ℕ (Future V E)
  pub asked : List ℕ  -- the goals whose cancel callback was called so far
  pub done_notices : ℕ  -- how often `notify_goal_done` was called

module _ {S V E : Type 0} where
  -- `_execute_goal_request`: what `goal_exists`, the goal callback and the making of a goal handle answered; whether
  -- the goal was accepted. The callback for accepted goals comes behind it.
  unfoldable pub execute_goal_request :
      ℕ → Bool → Bool → Option S → ActionServer S V E → Bool × ActionServer S V E
  execute_goal_request id goal_id_exists accept handle server =
      if not goal_id_exists && accept
      then elim handle [
        | none ↦ (false, server)
        | some h ↦ (
          true,
          record server {
            goal_handles = Dict.set server.goal_handles id (some h);
            result_futures = Dict.set server.result_futures id (Future.new none);
          },
        )
      ]
      else (false, server)

  -- `_execute_get_result_request`: `none` where the response is STATUS_UNKNOWN at once.
  unfoldable pub execute_get_result_request :
      ℕ → ℕ → ActionServer S V E → Result Error (Option (List Effect)) × ActionServer S V E
  execute_get_result_request id send server =
      if not (is_some (Dict.get server.goal_handles id))
      then (ok none, server)
      else elim (Dict.get server.result_futures id) [
        | none ↦ (err key_error, server)
        | some f ↦
            let (f', effects) = Future.add_done_callback send false f in
            (
              ok (some effects),
              record server { result_futures = Dict.set server.result_futures id f' },
            )
      ]

  -- `_execute_expire_goals`
  unfoldable pub execute_expire_goals :
      List ℕ → ActionServer S V E → Result Error (Unit {0}) × ActionServer S V E
  execute_expire_goals [] server = (ok tt, server)
  execute_expire_goals (id ∷ ids) server = elim (Dict.get server.goal_handles id) [
    | none ↦ (err key_error, server)
    | some _ ↦ elim (Dict.get server.result_futures id) [
      | none ↦ (err key_error, record server { goal_handles = Dict.del server.goal_handles id })
      | some _ ↦ execute_expire_goals ids (record server {
        goal_handles = Dict.del server.goal_handles id;
        result_futures = Dict.del server.result_futures id;
      })
    ]
  ]

-- `ServerGoalHandle._update_state`: the handle, and whether the server is notified. `publish_status` is taken to
-- succeed.
unfoldable pub update_state :
    {S : Type 0} → GoalStates S → GoalEvent → Option S → Result Error (Option S × Bool)
update_state states event none = ok (none, false)
update_state states event (some h) = elim (states.update event h) [
  | none ↦ err rcl_error
  | some h' ↦ ok (some h', not (states.is_active h'))
]

module _ {S V E : Type 0} (states : GoalStates S) where
  -- The body of the loop over the goals that are to be cancelled; `accept` is the user's cancel callback. Whether
  -- the goal stays in the response.
  unfoldable pub cancel_one : (ℕ → Bool) → ℕ → ActionServer S V E → Bool × ActionServer S V E
  cancel_one accept goal server = elim (Dict.get server.goal_handles goal) [
    | none ↦ (false, server)
    | some h ↦
        let asked = record server { asked = server.asked ++ goal ∷ [] } in
        if accept goal
        then elim (update_state states cancel_goal h) [
          | err _ ↦ (false, asked)
          | ok (h', notified) ↦ (
            true,
            record asked {
              goal_handles = Dict.set server.goal_handles goal h';
              done_notices = if notified then suc server.done_notices else server.done_notices;
            },
          )
        ]
        else (false, asked)
  ]

  -- The loop, which goes over the list that it removes from: the index goes up by one whatever was removed.
  -- The fuel is a bound on the rounds.
  unfoldable pub cancel_loop :
      (ℕ → Bool) → ℕ → ℕ → List ℕ → ActionServer S V E → List ℕ × ActionServer S V E
  cancel_loop accept zero i goals server = (goals, server)
  cancel_loop accept (suc fuel) i goals server = elim (get_elem? goals i) [
    | none ↦ (goals, server)
    | some g ↦
        let (kept, server') = cancel_one accept g server in
        cancel_loop accept fuel (suc i) (if kept then goals else remove g goals) server'
  ]

  -- `_execute_cancel_request`: the goals in the response.
  unfoldable pub execute_cancel_request :
      (ℕ → Bool) → List ℕ → ActionServer S V E → List ℕ × ActionServer S V E
  execute_cancel_request accept goals server = cancel_loop accept (length goals) 0 goals server
