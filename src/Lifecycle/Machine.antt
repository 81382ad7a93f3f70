-- ===== src/Lifecycle/Machine.antt =====
-- `__change_state` of rclpy/rclpy/lifecycle/node.py over the state machine of the C library, and the publishers among
-- the managed entities.
use rclpy.Prelude.{
  ℕ, ◌≡◌, inl, inr, refl, sym, subst, true, false, some, List, ok, Bool-cases, Option-cases, nat_eq,
}
use rclpy.Dict
use rclpy.Lifecycle.{
  TransitionCallbackReturn, success, failure, error, CallbackName, LifecycleState, Answer, returns,
  returns_other, raises, Entity, UserCode, Rcl, LifecycleNode, call_on, caught, execute_callback,
  finish, process_error, complete, change_state,
}
use rclpy.Lifecycle.Entities.{transition_callback_impl-ne-other}

-- No override of the user's returns anything but a `TransitionCallbackReturn`.
pub record IsTyped (u : UserCode) : Type 0 where
  pub overrides :
      (name : CallbackName) (f : LifecycleState → List Entity → Answer × List Entity)
      → u.override name ≡ some f
      → (state : LifecycleState) (es : List Entity) → (f state es).0 ≡ returns_other
      → ⊥

-- What the state machine of the C library promises: a trigger by id that is refused leaves it in a primary state, and
-- one that is not leads to a transition state. Each of these has a transition for each return code. Success and
-- failure lead to a primary state, and an error to the processing of errors, which every return code ends.
pub record Laws {S : Type 0} (rcl : Rcl S) (Primary Busy Processing : S → Type 0) : Type 0 where
  pub refused :
      (id : ℕ) (s : S)
      → Primary s
      → (rcl.trigger_transition_by_id id s).1 ≡ false
      → Primary (rcl.trigger_transition_by_id id s).0
  pub started :
      (id : ℕ) (s : S)
      → Primary s
      → (rcl.trigger_transition_by_id id s).1 ≡ true
      → Busy (rcl.trigger_transition_by_id id s).0
  pub completed :
      (code : TransitionCallbackReturn) (s : S)
      → Busy s
      → (rcl.trigger_transition_by_label (rcl.to_label code) s).1 ≡ true
  pub succeeded :
      (s : S) → Busy s → Primary (rcl.trigger_transition_by_label (rcl.to_label success) s).0
  pub failed :
      (s : S) → Busy s → Primary (rcl.trigger_transition_by_label (rcl.to_label failure) s).0
  pub erred :
      (s : S) → Busy s → Processing (rcl.trigger_transition_by_label (rcl.to_label error) s).0
  pub processed :
      (code : TransitionCallbackReturn) (s : S)
      → Processing s
      → Primary (rcl.trigger_transition_by_label (rcl.to_label code) s).0

caught-code :
    (a : Answer)
    → (a ≡ returns_other → ⊥)
    → (code : TransitionCallbackReturn) × (caught a ≡ returns code)
unfolding caught
caught-code raises h = (error, refl)
caught-code (returns r) h = (r, refl)
caught-code returns_other h = absurd (h refl)

module _ (u : UserCode) (t : IsTyped u) where
  call_on-ne-other :
      (name : CallbackName) (state : LifecycleState) (es : List Entity)
      → (call_on u name state es).0 ≡ returns_other
      → ⊥
  unfolding call_on
  call_on-ne-other name state es h = elim (Option-cases (u.override name)) [
    | inl e ↦ transition_callback_impl-ne-other u name state es (rw (e, call_on) at h)
    | inr (f, e) ↦ t.overrides name f e state es (rw (e, call_on) at h)
  ]

  module _ {S : Type 0} (rcl : Rcl S) where
    -- A callback of the node always ends with a return code, and leaves the machine alone.
    execute_callback-code :
        (id : ℕ) (state : LifecycleState) (n : LifecycleNode S)
        → ((code : TransitionCallbackReturn) × ((execute_callback rcl u id state n).0
              ≡ returns code))
          × ((execute_callback rcl u id state n).1.state_machine ≡ n.state_machine)
    unfolding execute_callback
    execute_callback-code id state n = elim (Option-cases (Dict.get n.callbacks id)) [
      | inl e ↦ rw (e, execute_callback) ((success, refl), refl)
      | inr (name, e) ↦
          rw (e, execute_callback)
            (caught-code _ (call_on-ne-other name state n.managed_entities), refl)
    ]

    process_error-ok :
        (Primary Busy Processing : S → Type 0)
        → Laws rcl Primary Busy Processing
        → (state : LifecycleState) (n : LifecycleNode S) → Processing n.state_machine
        → ((process_error rcl u state n).0 ≡ ok error)
          × Primary (process_error rcl u state n).1.state_machine
    unfolding process_error finish
    process_error-ok Primary Busy Processing laws state n p =
        let ((code, e), same) =
          execute_callback-code (rcl.current_state n.state_machine).state_id state n in
        rw (e, process_error) (refl, laws.processed code _ (subst Processing (sym same) p))

    complete-ok :
        (Primary Busy Processing : S → Type 0)
        → Laws rcl Primary Busy Processing
        → (state : LifecycleState) (code : TransitionCallbackReturn) (n : LifecycleNode S)
        → Busy n.state_machine
        → ((complete rcl u state (returns code) n).0 ≡ ok code)
          × Primary (complete rcl u state (returns code) n).1.state_machine
    unfolding complete finish
    complete-ok Primary Busy Processing laws state success n b =
        rw (laws.completed success n.state_machine b, complete)
          (refl, laws.succeeded n.state_machine b)
    complete-ok Primary Busy Processing laws state failure n b =
        rw (laws.completed failure n.state_machine b, complete)
          (refl, laws.failed n.state_machine b)
    complete-ok Primary Busy Processing laws state error n b =
        rw (laws.completed error n.state_machine b, complete)
          (process_error-ok Primary Busy Processing laws state (finish rcl u error n).0
            (laws.erred n.state_machine b))

    -- Where the library's state machine keeps its promises and the user's overrides return return codes, every
    -- change of state that is asked for in a primary state comes to an end in a primary state, also through the
    -- processing of an error, and hands back a return code: an error if the transition could not start.
    pub change_state-Primary :
        (Primary Busy Processing : S → Type 0)
        → Laws rcl Primary Busy Processing
        → (id : ℕ) (n : LifecycleNode S) → rcl.initialized n.state_machine ≡ true
        → Primary n.state_machine
        → ((code : TransitionCallbackReturn) × ((change_state rcl u id n).0 ≡ ok code))
          × Primary (change_state rcl u id n).1.state_machine
          × ((rcl.trigger_transition_by_id id n.state_machine).1 ≡ false
              → ((change_state rcl u id n).0 ≡ ok error)
                × ((change_state rcl u id n).1.managed_entities ≡ n.managed_entities))
    unfolding change_state
    change_state-Primary Primary Busy Processing laws id n i p =
        let triggered = rcl.trigger_transition_by_id id n.state_machine in
        elim (Bool-cases triggered.1) [
          | inr r ↦
              rw (i, r, change_state)
                ((error, refl), laws.refused id n.state_machine p r, λ _. (refl, refl))
          | inl r ↦
              let state = rcl.current_state n.state_machine in
              let begun = record n { state_machine = triggered.0 } in
              let ((code, e), same) =
                execute_callback-code (rcl.current_state triggered.0).state_id state begun in
              let (o, q) =
                complete-ok Primary Busy Processing laws state code
                  (execute_callback rcl u (rcl.current_state triggered.0).state_id state begun).1
                  (subst Busy (sym same) (laws.started id n.state_machine p r)) in
              rw (i, r, e, change_state) ((code, o), q, λ h. cc h)
        ]
