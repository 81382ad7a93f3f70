-- ===== src/ActionClient/Rejected.antt =====
-- A goal that the action server rejects (rclpy/rclpy/action/client.py): the request, the response and the done callback
-- of its future.
use rclpy.Prelude.{
  ℕ, suc, ◌≡◌, refl, sym, ap, ◌∙◌, inl, inr, true, false, Option, none, some, List, [], ◌∷◌, map,
  ok, ◌==◌, ==-eq, ==-refl, nat_eq, Bool-cases,
}
use rclpy.Dict
use rclpy.Dict.{Dict, is_some}
use rclpy.Future
use rclpy.Client.{Client, find_key, take_response}
use rclpy.Client.Requests
use rclpy.Client.Requests.{called, call_async_new, called-IsValid, found}
use rclpy.Client.Response.{take_response-IsValid, removed}
use rclpy.ActionClient.{
  Effect, feedback, future, ActionClient, drop_key, send_goal_async, remove_pending_goal_request,
  execute_goal, execute_feedback,
}
use rclpy.ActionClient.Valid.{IsValid, take_response-pending}

is_none : {A : Type 0} (o : Option A) → is_some o ≡ false → o ≡ none
is_none none h = refl
is_none (some a) h = cc

set_self : (d : Dict ℕ ℕ) (k a : ℕ) → Dict.get (Dict.set d k a) k ≡ some a
set_self d k a = Dict.get-set d k k a ∙ rw (==-refl k) refl

module _ {R C E : Type 0} (c : ActionClient R C E) (v : IsValid c)
    (seq id callback executor : ℕ) where
  abbrev requests : Client ℕ E
  requests = called c.pending_goal_requests v.goals seq

  abbrev ids : Dict ℕ ℕ
  ids = Dict.set c.goal_sequence_number_to_goal_id seq id

  -- The client behind the request.
  abbrev sent : ActionClient R C E
  sent = record c {
    pending_goal_requests = requests;
    goal_sequence_number_to_goal_id = ids;
    feedback_callbacks = Dict.set c.feedback_callbacks id callback;
  }

  send_new :
      Dict.get c.pending_goal_requests.pending_requests seq ≡ none
      → send_goal_async seq id (some callback) c ≡ (ok c.pending_goal_requests.next_future, sent)
  unfolding send_goal_async
  send_new free =
      let made = call_async_new c.pending_goal_requests v.goals seq free in
      rw (made, send_goal_async) (rw made refl)

  abbrev answer : Client ℕ E × List Future.Effect
  answer = take_response seq c.next_handle executor requests

  -- The client behind the rejection.
  abbrev rejected : ActionClient R C E
  rejected = record sent {
    pending_goal_requests = answer.0;
    handles =
        Dict.set c.handles c.next_handle (record { goal_id = id; accepted = false; status = 0 });
    next_handle = suc c.next_handle;
  }

  reject : execute_goal seq false executor sent ≡ (ok (map future answer.1), rejected)
  unfolding execute_goal
  reject =
      let known : Dict.get ids seq ≡ some id = set_self c.goal_sequence_number_to_goal_id seq id in
      let waits : is_some (Dict.get requests.pending_requests seq) ≡ true = ap is_some (
        set_self c.pending_goal_requests.pending_requests seq
          c.pending_goal_requests.next_future) in
      rw (known, waits, execute_goal) refl

  answer-IsValid : Requests.IsValid answer.0
  answer-IsValid =
      take_response-IsValid requests seq c.next_handle executor
        (called-IsValid c.pending_goal_requests v.goals seq)

  answer_waits : Dict.get answer.0.pending_requests seq ≡ some c.pending_goal_requests.next_future
  answer_waits =
      rw (take_response-pending seq executor c.next_handle requests)
        (set_self c.pending_goal_requests.pending_requests seq c.pending_goal_requests.next_future)

  -- The future's request is the one that was sent.
  find : find_key c.pending_goal_requests.next_future answer.0.pending_requests.entries ≡ some seq
  find = elim (found answer.0 answer-IsValid c.pending_goal_requests.next_future) [
    | inl (_, nobody) ↦ absurd (nobody seq answer_waits)
    | inr (s, e, has) ↦
        e ∙ ap some (answer-IsValid.own s seq c.pending_goal_requests.next_future has answer_waits)
  ]

  forgets :
      Dict.get c.goal_sequence_number_to_goal_id seq ≡ none
      → (k : ℕ)
      → Dict.get
          (drop_key
            (find_key c.pending_goal_requests.next_future answer.0.pending_requests.entries)
            ids)
          k
        ≡ Dict.get c.goal_sequence_number_to_goal_id k
  forgets unknown k =
      let old = c.goal_sequence_number_to_goal_id in
      let known : is_some (Dict.get ids seq) ≡ true = ap is_some (set_self old seq id) in
      rw (find, known)
        (elim (Bool-cases (seq == k)) [
          | inl e ↦
              rw (Dict.get-del ids seq k, e)
                (sym (ap (Dict.get old) (sym (==-eq seq k e)) ∙ unknown))
          | inr e ↦ rw (Dict.get-del ids seq k, e, Dict.get-set old seq k id, e) refl
        ])

  -- A goal is sent with a feedback callback, under a sequence number that is not pending; the server rejects it, and
  -- the done callback of its future runs. Nothing is raised, the same goal requests are pending as before, with the
  -- same goal ids, and no handle is tracked; but the feedback callback stays: a feedback message with this goal id is
  -- still given to it.
  pub send-rejected :
      Dict.get c.pending_goal_requests.pending_requests seq ≡ none
      → let c1 = (send_goal_async seq id (some callback) c).1 in
        let (r, c2) = execute_goal seq false executor c1 in
        let c3 = remove_pending_goal_request c.pending_goal_requests.next_future c2 in
        ((effects : List Effect) × (r ≡ ok effects))
        × ((k : ℕ)
            → Dict.get c3.pending_goal_requests.pending_requests k
              ≡ Dict.get c.pending_goal_requests.pending_requests k)
        × ((k : ℕ)
            → Dict.get c3.goal_sequence_number_to_goal_id k
              ≡ Dict.get c.goal_sequence_number_to_goal_id k)
        × (c3.goal_handles ≡ c.goal_handles)
        × ((msg : ℕ) → execute_feedback id msg c3 ≡ feedback callback msg ∷ [])
  unfolding remove_pending_goal_request execute_feedback
  send-rejected free =
      let unknown =
        is_none (Dict.get c.goal_sequence_number_to_goal_id seq)
          (sym (v.goal_ids seq) ∙ ap is_some free) in
      rw (send_new free, reject)
        (
          (map future answer.1, refl),
          removed c.pending_goal_requests v.goals seq executor c.next_handle answer.0 answer-IsValid
              (take_response-pending seq executor c.next_handle requests) free,
          forgets unknown,
          refl,
          λ msg. rw (set_self c.feedback_callbacks id callback, execute_feedback) refl,
        )
