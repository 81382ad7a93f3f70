-- ===== src/ActionClient/Runs.antt =====
-- What an action client does over time (rclpy/rclpy/action/client.py): requests, the done callbacks of their futures,
-- and what the executor takes.
use rclpy.Prelude.{
  ℕ, ◌≡◌, refl, sym, ◌∙◌, inl, inr, Bool, Option, none, some, List, [], ◌∷◌, ok, err, Result-cases,
  nat_eq, Bool-cases, Option-cases,
}
use rclpy.Dict
use rclpy.Dict.{Dict, is_some}
use rclpy.Client.Requests
use rclpy.ActionClient.{
  key_error, Effect, ActionClient, GoalHandle, no_requests, new, is_done_status, send_goal_async,
  cancel_goal_async, get_result_async, remove_pending_goal_request, remove_pending_cancel_request,
  remove_pending_result_request, execute_goal, execute_cancel, execute_result, execute_one_status,
  execute_status, execute_rest, execute, TakenData, where_taken,
}
use rclpy.ActionClient.Valid.{
  IsValid, send-IsValid, cancel-IsValid, result-IsValid, remove_goal-IsValid, remove_cancel-IsValid,
  remove_result-IsValid, execute_goal-IsValid, execute_cancel-IsValid, execute_result-IsValid,
}

no_requests-IsValid : {V E : Type 0} → Requests.IsValid (no_requests {V = V} {E = E})
no_requests-IsValid = record {
  made = λ seq f h. (let c : none ≡ some f = sym (Dict.get-empty seq) ∙ h in cc);
  own = λ seq seq' f h. (let c : none ≡ some f = sym (Dict.get-empty seq) ∙ h in cc);
  unique = Dict.empty-IsUnique;
}

module _ {R C E : Type 0} where
  pub new-IsValid : (enabled : Bool) → IsValid (new {R = R} {C = C} {E = E} enabled)
  unfolding new
  new-IsValid enabled = record {
    goals = no_requests-IsValid;
    cancels = no_requests-IsValid;
    results = no_requests-IsValid;
    goal_ids = λ seq. refl;
    result_ids = λ seq. refl;
  }

  -- The requests do not depend on the handles.
  handles-IsValid :
      (goal_handles : Dict ℕ ℕ) (handles : Dict ℕ GoalHandle) (c : ActionClient R C E)
      → IsValid c
      → IsValid (record c { goal_handles = goal_handles; handles = handles })
  handles-IsValid goal_handles handles c v = record {
    goals = v.goals;
    cancels = v.cancels;
    results = v.results;
    goal_ids = v.goal_ids;
    result_ids = v.result_ids;
  }

  status-IsValid :
      (goal_uuid status : ℕ) (c : ActionClient R C E)
      → IsValid c
      → IsValid (execute_one_status goal_uuid status c).1
  unfolding execute_one_status
  status-IsValid goal_uuid status c v = elim (Option-cases (Dict.get c.goal_handles goal_uuid)) [
    | inl e ↦ rw (e, execute_one_status) v
    | inr (weak, e) ↦ elim (Option-cases (Dict.get c.handles weak)) [
      | inl gone ↦ rw (e, gone, execute_one_status) (handles-IsValid _ _ c v)
      | inr (handle, there) ↦ elim (Bool-cases (is_done_status status)) [
        | inl d ↦ rw (e, there, d, execute_one_status) (handles-IsValid _ _ c v)
        | inr d ↦ rw (e, there, d, execute_one_status) (handles-IsValid c.goal_handles _ c v)
      ]
    ]
  ]

  statuses-IsValid :
      (l : List (ℕ × ℕ)) (c : ActionClient R C E) → IsValid c → IsValid (execute_status l c).1
  unfolding execute_status
  statuses-IsValid [] c v = v
  statuses-IsValid ((goal_uuid, status) ∷ l) c v =
      statuses-IsValid l (execute_one_status goal_uuid status c).1
        (status-IsValid goal_uuid status c v)

  where_taken-IsValid :
      {A : Type 0} (o : Option A) (c : ActionClient R C E)
      (f : A → List Effect × ActionClient R C E)
      → IsValid c
      → ((a : A) → IsValid (f a).1)
      → IsValid (where_taken o ([], c) f).1
  where_taken-IsValid none c f v h = v
  where_taken-IsValid (some a) c f v h = h a

  rest-IsValid :
      (taken : TakenData R C) (executor : ℕ) (c : ActionClient R C E)
      → IsValid c
      → IsValid (execute_rest taken executor c).1
  unfolding execute_rest
  rest-IsValid taken executor c v =
      let cancelled = where_taken taken.cancel ([], c) (λ r. execute_cancel r.0 r.1 executor c) in
      let v1 : IsValid cancelled.1 =
        where_taken-IsValid taken.cancel c (λ r. execute_cancel r.0 r.1 executor c) v
          (λ r. execute_cancel-IsValid r.0 executor r.1 c v) in
      let finished =
        where_taken taken.result ([], cancelled.1)
          (λ r. execute_result r.0 r.1 executor cancelled.1) in
      let v2 : IsValid finished.1 =
        where_taken-IsValid taken.result cancelled.1
          (λ r. execute_result r.0 r.1 executor cancelled.1) v1
          (λ r. execute_result-IsValid r.0 executor r.1 cancelled.1 v1) in
      where_taken-IsValid taken.status finished.1 (λ l. execute_status l finished.1) v2
        (λ l. statuses-IsValid l finished.1 v2)

  goal_taken-IsValid :
      (o : Option (ℕ × Bool)) (executor : ℕ) (c : ActionClient R C E)
      → IsValid c
      → let r = where_taken o (ok [], c) (λ g. execute_goal g.0 g.1 executor c) in
        IsValid r.1 × (r.0 ≡ err key_error → ⊥)
  goal_taken-IsValid none executor c v = (v, λ h. cc)
  goal_taken-IsValid (some (seq, accepted)) executor c v =
      execute_goal-IsValid seq accepted executor c v

  execute-IsValid :
      (taken : TakenData R C) (executor : ℕ) (c : ActionClient R C E)
      → IsValid c
      → IsValid (execute taken executor c).1 × ((execute taken executor c).0 ≡ err key_error → ⊥)
  unfolding execute
  execute-IsValid taken executor c v =
      let answered = where_taken taken.goal (ok [], c) (λ g. execute_goal g.0 g.1 executor c) in
      let (v', right) = goal_taken-IsValid taken.goal executor c v in
      elim (Result-cases answered.0) [
        | inl (effects, e) ↦ rw (e, execute) (rest-IsValid taken executor answered.1 v', λ h. cc)
        | inr (error, e) ↦ rw (e, execute) (v', λ h. right (e ∙ h))
      ]

  -- A user asks for something, a future's done callback runs, or the executor hands over what it took.
  pub data Step (c : ActionClient R C E) : ActionClient R C E → Type 0 where
    sends : (seq id : ℕ) (callback : Option ℕ) → Step c (send_goal_async seq id callback c).1
    cancels : (seq id : ℕ) → Step c (cancel_goal_async seq id c).1
    gets : (seq id : ℕ) → Step c (get_result_async seq id c).1
    goal_done : (f : ℕ) → Step c (remove_pending_goal_request f c)
    cancel_done : (f : ℕ) → Step c (remove_pending_cancel_request f c)
    result_done : (f : ℕ) → Step c (remove_pending_result_request f c).0
    executes : (taken : TakenData R C) (executor : ℕ) → Step c (execute taken executor c).1

  pub data Reach : ActionClient R C E → Type 0 where
    here : (enabled : Bool) → Reach (new enabled)
    next : {c d : ActionClient R C E} → Reach c → Step c d → Reach d

  Step-IsValid : {c d : ActionClient R C E} → Step c d → IsValid c → IsValid d
  Step-IsValid {c} (sends seq id callback) v = send-IsValid seq id callback c v
  Step-IsValid {c} (cancels seq id) v = cancel-IsValid seq id c v
  Step-IsValid {c} (gets seq id) v = result-IsValid seq id c v
  Step-IsValid {c} (goal_done f) v = remove_goal-IsValid f c v
  Step-IsValid {c} (cancel_done f) v = remove_cancel-IsValid f c v
  Step-IsValid {c} (result_done f) v = remove_result-IsValid f c v
  Step-IsValid {c} (executes taken executor) v = (execute-IsValid taken executor c v).0

  keeps : {c : ActionClient R C E} → Reach c → IsValid c
  keeps (here enabled) = new-IsValid enabled
  keeps (next r s) = Step-IsValid s (keeps r)

  -- On one thread, where each method runs to its end before the next one starts, however requests are sent, answered,
  -- also twice or unasked, and removed: every pending request has a future of
  -- its own, the tables of goal ids have entries for exactly the pending requests, and the lookup of a goal request's
  -- future never fails with a KeyError, whatever is taken.
  pub Reach-no_key_error :
      {c : ActionClient R C E}
      → Reach c
      → IsValid c
        × ((taken : TakenData R C) (executor : ℕ)
            → (execute taken executor c).0 ≡ err key_error
            → ⊥)
  Reach-no_key_error {c} r =
      (keeps r, λ taken executor. (execute-IsValid taken executor c (keeps r)).1)
