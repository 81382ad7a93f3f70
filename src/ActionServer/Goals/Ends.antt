-- ===== src/ActionServer/Goals/Ends.antt =====
-- How the execution of a goal ends (rclpy/rclpy/action/server.py, `_execute_goal`).
use rclpy.Prelude.{
  ℕ, suc, ◌≡◌, refl, ◌∙◌, inl, inr, true, false, Option, none, some, List, [], ok, ==-refl, nat_eq,
  Bool-cases, Option-cases,
}
use rclpy.Dict
use rclpy.Dict.{Dict}
use rclpy.Future
use rclpy.Future.{Future, Effect}
use rclpy.ActionServer.{abort, ActionServer, update_state}
use rclpy.ActionServer.Goals.{
  GoalStatuses, handle_of, status, is_active, update_goal, answer, conclude, finish_goal,
  execute_goal,
}

set_self : {A : Type 0} (id : ℕ) (d : Dict ℕ A) (a : A) → Dict.get (Dict.set d id a) id ≡ some a
set_self id d a = Dict.get-set d id id a ∙ rw (==-refl id) refl

module _ {S Res E : Type 0} (statuses : GoalStatuses S) (id : ℕ) where
  -- The goal has come to its end, and its future has the status and the result.
  pub record IsEnded (result : Res) (server : ActionServer S (ℕ × Res) E) : Type 0 where
    pub inactive : is_active statuses id server ≡ false
    pub answered :
        (f : Future (ℕ × Res) E) × (Dict.get server.result_futures id ≡ some f)
        × (f.result ≡ some (status statuses id server, result))
        × (Future.is_done f ≡ true)

  -- The C library can abort the goal if it is active, which makes it inactive.
  abbrev pub CanAbort : ActionServer S (ℕ × Res) E → Type 0
  CanAbort server =
      (h : S)
      → handle_of id server ≡ some h
      → statuses.states.is_active h ≡ true
      → (h' : S) × (statuses.states.update abort h ≡ some h')
        × (statuses.states.is_active h' ≡ false)

  answer-ends :
      (result : Res) (server : ActionServer S (ℕ × Res) E) (f : Future (ℕ × Res) E)
      → Dict.get server.result_futures id ≡ some f
      → is_active statuses id server ≡ false
      → let o = answer statuses id result server in
        ((effects : List Effect) × (o.0 ≡ ok effects)) × IsEnded result o.1
  unfolding answer is_active Future.set_result Future.schedule_or_invoke_done_callbacks status
      Future.is_done
  answer-ends result server f e inactive =
      rw (e, answer)
        (
          (_, refl),
          record {
            inactive = inactive;
            answered = (
              (Future.set_result (status statuses id server, result) f).0,
              set_self id server.result_futures _,
              refl,
              refl,
            );
          },
        )

  finish_idle :
      (result : Res) (server : ActionServer S (ℕ × Res) E)
      → is_active statuses id server ≡ false
      → finish_goal statuses id result server ≡ answer statuses id result server
  unfolding finish_goal
  finish_idle result server idle = rw (idle, finish_goal) (rw idle refl)

  -- The server behind an abort.
  abbrev aborted : S → ActionServer S (ℕ × Res) E → ActionServer S (ℕ × Res) E
  aborted h server = record server {
    goal_handles = Dict.set server.goal_handles id (some h);
    done_notices = suc server.done_notices;
  }

  update_goes :
      (h h' : S) (server : ActionServer S (ℕ × Res) E)
      → handle_of id server ≡ some h
      → statuses.states.update abort h ≡ some h'
      → statuses.states.is_active h' ≡ false
      → update_goal statuses abort id server ≡ (ok tt, aborted h' server)
  unfolding update_goal update_state
  update_goes h h' server e u inactive =
      let updated : update_state statuses.states abort (handle_of id server) ≡ ok (some h', true) =
        rw (e, update_state, u, inactive) refl in
      rw (updated, update_goal) refl

  abort_goes :
      (h h' : S) (server : ActionServer S (ℕ × Res) E)
      → handle_of id server ≡ some h
      → statuses.states.update abort h ≡ some h'
      → statuses.states.is_active h' ≡ false
      → conclude statuses abort id none server ≡ (ok [], aborted h' server)
  unfolding conclude
  abort_goes h h' server e u inactive =
      let goes = update_goes h h' server e u inactive in rw (goes, conclude) (rw goes refl)

  finish_active :
      (result : Res) (server s : ActionServer S (ℕ × Res) E)
      → is_active statuses id server ≡ true
      → conclude statuses abort id none server ≡ (ok [], s)
      → finish_goal statuses id result server ≡ answer statuses id result s
  unfolding finish_goal
  finish_active result server s active e = rw (active, e, finish_goal) (rw (active, e) refl)

  aborted_idle :
      (h : S) (server : ActionServer S (ℕ × Res) E)
      → statuses.states.is_active h ≡ false
      → is_active statuses id (aborted h server) ≡ false
  unfolding is_active
  aborted_idle h server inactive = rw (set_self id server.goal_handles (some h), is_active) inactive

  active_handle :
      (server : ActionServer S (ℕ × Res) E)
      → is_active statuses id server ≡ true
      → (h : S) × (handle_of id server ≡ some h) × (statuses.states.is_active h ≡ true)
  unfolding is_active
  active_handle server active = elim (Option-cases (handle_of id server)) [
    | inl e ↦ (let c : false ≡ true = rw (e, is_active) at active in cc)
    | inr (h, e) ↦ (h, e, rw (e, is_active) at active)
  ]

  finish-ends :
      (result : Res) (server : ActionServer S (ℕ × Res) E) (f : Future (ℕ × Res) E)
      → Dict.get server.result_futures id ≡ some f
      → CanAbort server
      → let o = finish_goal statuses id result server in
        ((effects : List Effect) × (o.0 ≡ ok effects)) × IsEnded result o.1
  finish-ends result server f e can = elim (Bool-cases (is_active statuses id server)) [
    | inr idle ↦ rw (finish_idle result server idle) (answer-ends result server f e idle)
    | inl active ↦
        let (h, there, live) = active_handle server active in
        let (h', u, inactive) = can h there live in
        rw
          (finish_active result server (aborted h' server) active
            (abort_goes h h' server there u inactive))
          (answer-ends result (aborted h' server) f e (aborted_idle h' server inactive))
  ]

  -- Whatever the execute callback did, concluding the goal and giving a result through the goal handle included: if
  -- the goal's future is still there when it is done, and the C library can abort the goal if it is still active,
  -- then the execution raises nothing, the goal is inactive, and its future is finished with the status and what the
  -- callback returned, or an empty result if it raised. A result that was set before, by succeed, abort or canceled,
  -- is gone.
  pub execute_goal-ends :
      (empty : Res)
      (execute_callback : ActionServer S (ℕ × Res) E → Option Res × ActionServer S (ℕ × Res) E)
      (server : ActionServer S (ℕ × Res) E) (f : Future (ℕ × Res) E)
      → Dict.get (execute_callback server).1.result_futures id ≡ some f
      → CanAbort (execute_callback server).1
      → let o = execute_goal statuses empty execute_callback id server in
        ((effects : List Effect) × (o.0 ≡ ok effects))
        × IsEnded (elim (execute_callback server).0 [ none ↦ empty | some result ↦ result ]) o.1
  unfolding execute_goal
  execute_goal-ends empty execute_callback server f e can =
      finish-ends (elim (execute_callback server).0 [ none ↦ empty | some result ↦ result ])
        (execute_callback server).1 f e can
