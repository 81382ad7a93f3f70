-- ===== src/ActionClient/Valid.antt =====
-- The tables of an action client (rclpy/rclpy/action/client.py) and how they agree.
use rclpy.Prelude.{
  ℕ, ◌≡◌, refl, sym, ap, ◌∙◌, inl, inr, Bool, true, false, Option, some, err, if◌then◌else◌, ◌==◌,
  nat_eq, Bool-cases, Option-cases,
}
use rclpy.Dict
use rclpy.Dict.{Dict, is_some}
use rclpy.Client
use rclpy.Client.{
  Client, call_async, find_key, remove_pending_request, take_response, get_pending_request,
}
use rclpy.Client.Requests.{
  called, call_async_new, called-IsValid, remove_pending_request-exact, found,
}
use rclpy.Client.Response.{take_response-IsValid}
use rclpy.ActionClient.{
  key_error, ActionClient, drop_key, send_goal_async, cancel_goal_async, get_result_async,
  remove_pending_goal_request, remove_pending_cancel_request, remove_pending_result_request,
  execute_goal, execute_cancel, execute_result,
}

-- A table of goal ids has an entry for exactly the requests that are pending.
abbrev pub Agrees : {V E : Type 0} → Client V E → Dict ℕ ℕ → Type 0
Agrees requests ids =
    (seq : ℕ) → is_some (Dict.get requests.pending_requests seq) ≡ is_some (Dict.get ids seq)

module _ {R C E : Type 0} where
  -- Every pending request has a future of its own, and a goal id if it is about a goal or a result.
  pub record IsValid (c : ActionClient R C E) : Type 0 where
    pub goals : Client.Requests.IsValid c.pending_goal_requests
    pub cancels : Client.Requests.IsValid c.pending_cancel_requests
    pub results : Client.Requests.IsValid c.pending_result_requests
    pub goal_ids : Agrees c.pending_goal_requests c.goal_sequence_number_to_goal_id
    pub result_ids : Agrees c.pending_result_requests c.result_sequence_number_to_goal_id

module _ {V E : Type 0} where
  pub take_response-pending :
      (seq executor : ℕ) (response : V) (c : Client V E)
      → (take_response seq response executor c).0.pending_requests ≡ c.pending_requests
  unfolding take_response get_pending_request
  take_response-pending seq executor response c =
      elim (Option-cases (Dict.get c.pending_requests seq)) [
        | inl e ↦ rw (e, take_response) refl
        | inr (f, e) ↦ elim (Option-cases (Dict.get c.futures f)) [
          | inl e' ↦ rw (e, e', take_response) refl
          | inr (g, e') ↦ rw (e, e', take_response) refl
        ]
      ]

  call_async_twice :
      (c : Client V E) (seq f : ℕ)
      → Dict.get c.pending_requests seq ≡ some f
      → call_async seq c ≡ (err Client.runtime_error, c)
  unfolding call_async
  call_async_twice c seq f e = rw (e, call_async) refl

  call_async-Agrees :
      (c : Client V E) (v : Client.Requests.IsValid c) (seq goal_id : ℕ) (ids : Dict ℕ ℕ)
      → Agrees c ids
      → Agrees (called c v seq) (Dict.set ids seq goal_id)
  call_async-Agrees c v seq goal_id ids a k = elim (Bool-cases (seq == k)) [
    | inl e ↦
        rw (Dict.get-set c.pending_requests seq k c.next_future, Dict.get-set ids seq k goal_id, e)
          refl
    | inr e ↦
        rw (Dict.get-set c.pending_requests seq k c.next_future, Dict.get-set ids seq k goal_id, e)
          (a k)
  ]

  remove-Agrees :
      (c : Client V E) (v : Client.Requests.IsValid c) (f : ℕ) (ids : Dict ℕ ℕ)
      → Agrees c ids
      → Agrees (remove_pending_request f c) (drop_key (find_key f c.pending_requests.entries) ids)
  unfolding remove_pending_request
  remove-Agrees c v f ids a = elim (found c v f) [
    | inl (e, _) ↦ rw (e, remove_pending_request) a
    | inr (seq, e, has) ↦
        let there : is_some (Dict.get ids seq) ≡ true = sym (a seq) ∙ ap is_some has in
        rw (e, remove_pending_request, there)
          (λ k. elim (Bool-cases (seq == k)) [
            | inl d ↦ rw (Dict.get-del c.pending_requests seq k, Dict.get-del ids seq k, d) refl
            | inr d ↦ rw (Dict.get-del c.pending_requests seq k, Dict.get-del ids seq k, d) (a k)
          ])
  ]

module _ {R C E : Type 0} where
  pub send-IsValid :
      (seq goal_id : ℕ) (callback : Option ℕ) (c : ActionClient R C E)
      → IsValid c
      → IsValid (send_goal_async seq goal_id callback c).1
  unfolding send_goal_async
  send-IsValid seq goal_id callback c v =
      elim (Option-cases (Dict.get c.pending_goal_requests.pending_requests seq)) [
        | inl e ↦
            rw (call_async_new c.pending_goal_requests v.goals seq e, send_goal_async)
              (record {
                goals =
                    rw (call_async_new c.pending_goal_requests v.goals seq e)
                      (called-IsValid c.pending_goal_requests v.goals seq);
                goal_ids = rw (call_async_new c.pending_goal_requests v.goals seq e) (
                    call_async-Agrees c.pending_goal_requests v.goals seq goal_id
                      c.goal_sequence_number_to_goal_id v.goal_ids);
                cancels = v.cancels;
                results = v.results;
                result_ids = v.result_ids;
              })
        | inr (f, e) ↦ rw (call_async_twice c.pending_goal_requests seq f e, send_goal_async) v
      ]

  pub cancel-IsValid :
      (seq goal_id : ℕ) (c : ActionClient R C E)
      → IsValid c
      → IsValid (cancel_goal_async seq goal_id c).1
  unfolding cancel_goal_async
  cancel-IsValid seq goal_id c v =
      elim (Option-cases (Dict.get c.pending_cancel_requests.pending_requests seq)) [
        | inl e ↦
            rw (call_async_new c.pending_cancel_requests v.cancels seq e, cancel_goal_async)
              (record {
                cancels =
                    rw (call_async_new c.pending_cancel_requests v.cancels seq e)
                      (called-IsValid c.pending_cancel_requests v.cancels seq);
                goals = v.goals;
                results = v.results;
                goal_ids = v.goal_ids;
                result_ids = v.result_ids;
              })
        | inr (f, e) ↦ rw (call_async_twice c.pending_cancel_requests seq f e, cancel_goal_async) v
      ]

  pub result-IsValid :
      (seq goal_id : ℕ) (c : ActionClient R C E)
      → IsValid c
      → IsValid (get_result_async seq goal_id c).1
  unfolding get_result_async
  result-IsValid seq goal_id c v =
      elim (Option-cases (Dict.get c.pending_result_requests.pending_requests seq)) [
        | inl e ↦
            rw (call_async_new c.pending_result_requests v.results seq e, get_result_async)
              (record {
                results =
                    rw (call_async_new c.pending_result_requests v.results seq e)
                      (called-IsValid c.pending_result_requests v.results seq);
                result_ids = rw (call_async_new c.pending_result_requests v.results seq e) (
                    call_async-Agrees c.pending_result_requests v.results seq goal_id
                      c.result_sequence_number_to_goal_id v.result_ids);
                goals = v.goals;
                cancels = v.cancels;
                goal_ids = v.goal_ids;
              })
        | inr (f, e) ↦ rw (call_async_twice c.pending_result_requests seq f e, get_result_async) v
      ]

  pub remove_goal-IsValid :
      (f : ℕ) (c : ActionClient R C E) → IsValid c → IsValid (remove_pending_goal_request f c)
  unfolding remove_pending_goal_request
  remove_goal-IsValid f c v = record {
    goals = (remove_pending_request-exact c.pending_goal_requests v.goals f).0;
    goal_ids =
        remove-Agrees c.pending_goal_requests v.goals f c.goal_sequence_number_to_goal_id
          v.goal_ids;
    cancels = v.cancels;
    results = v.results;
    result_ids = v.result_ids;
  }

  pub remove_cancel-IsValid :
      (f : ℕ) (c : ActionClient R C E) → IsValid c → IsValid (remove_pending_cancel_request f c)
  unfolding remove_pending_cancel_request
  remove_cancel-IsValid f c v = record {
    cancels = (remove_pending_request-exact c.pending_cancel_requests v.cancels f).0;
    goals = v.goals;
    results = v.results;
    goal_ids = v.goal_ids;
    result_ids = v.result_ids;
  }

  pub remove_result-IsValid :
      (f : ℕ) (c : ActionClient R C E) → IsValid c → IsValid (remove_pending_result_request f c).0
  unfolding remove_pending_result_request
  remove_result-IsValid f c v =
      let requests = c.pending_result_requests in
      let left = (remove_pending_request-exact requests v.results f).0 in
      let agrees =
        remove-Agrees requests v.results f c.result_sequence_number_to_goal_id v.result_ids in
      elim (found requests v.results f) [
        | inl (e, _) ↦
            rw (e, remove_pending_result_request)
              (record {
                results = left;
                result_ids = rw e at agrees;
                goals = v.goals;
                cancels = v.cancels;
                goal_ids = v.goal_ids;
              })
        | inr (seq, e, has) ↦
            elim (Option-cases (Dict.get c.result_sequence_number_to_goal_id seq)) [
              | inl none_there ↦
                  (let c0 : true ≡ false =
                      sym (ap is_some has) ∙ v.result_ids seq ∙ ap is_some none_there in
                    cc)
              | inr (id, there) ↦
                  rw (e, there, remove_pending_result_request)
                    (record {
                      results = left;
                      result_ids = rw (e, drop_key, there) at agrees;
                      goals = v.goals;
                      cancels = v.cancels;
                      goal_ids = v.goal_ids;
                    })
            ]
      ]

  -- The response to a goal request finds the request pending, if it is one that was waited for.
  pub execute_goal-IsValid :
      (seq : ℕ) (accepted : Bool) (executor : ℕ) (c : ActionClient R C E)
      → IsValid c
      → IsValid (execute_goal seq accepted executor c).1
        × ((execute_goal seq accepted executor c).0 ≡ err key_error → ⊥)
  unfolding execute_goal
  execute_goal-IsValid seq accepted executor c v =
      elim (Option-cases (Dict.get c.goal_sequence_number_to_goal_id seq)) [
        | inl e ↦ rw (e, execute_goal) (v, λ h. cc)
        | inr (id, e) ↦
            let there = v.goal_ids seq ∙ ap is_some e in
            elim (Bool-cases (if accepted then is_some (Dict.get c.goal_handles id) else false)) [
              | inl twice ↦
                  rw (e, twice, execute_goal)
                    (
                      record {
                        goals = v.goals;
                        cancels = v.cancels;
                        results = v.results;
                        goal_ids = v.goal_ids;
                        result_ids = v.result_ids;
                      },
                      λ h. cc,
                    )
              | inr once ↦
                  rw (e, once, there, execute_goal)
                    (
                      record {
                        goals =
                            take_response-IsValid c.pending_goal_requests seq c.next_handle executor
                              v.goals;
                        cancels = v.cancels;
                        results = v.results;
                        goal_ids =
                            rw
                              (take_response-pending seq executor c.next_handle
                                c.pending_goal_requests)
                              v.goal_ids;
                        result_ids = v.result_ids;
                      },
                      λ h. cc,
                    )
            ]
      ]

  pub execute_cancel-IsValid :
      (seq executor : ℕ) (response : C) (c : ActionClient R C E)
      → IsValid c
      → IsValid (execute_cancel seq response executor c).1
  unfolding execute_cancel
  execute_cancel-IsValid seq executor response c v = record {
    goals = v.goals;
    cancels = take_response-IsValid c.pending_cancel_requests seq response executor v.cancels;
    results = v.results;
    goal_ids = v.goal_ids;
    result_ids = v.result_ids;
  }

  pub execute_result-IsValid :
      (seq executor : ℕ) (response : R) (c : ActionClient R C E)
      → IsValid c
      → IsValid (execute_result seq response executor c).1
  unfolding execute_result
  execute_result-IsValid seq executor response c v = record {
    goals = v.goals;
    cancels = v.cancels;
    results = take_response-IsValid c.pending_result_requests seq response executor v.results;
    goal_ids = v.goal_ids;
    result_ids =
        rw (take_response-pending seq executor response c.pending_result_requests) v.result_ids;
  }
