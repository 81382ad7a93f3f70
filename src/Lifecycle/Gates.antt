-- ===== src/Lifecycle/Gates.antt =====
-- What a change of state (rclpy/rclpy/lifecycle/node.py) does to the managed entities, and to the publishers among
-- them (publisher.py).
use rclpy.Prelude.{
  ℕ, ◌≡◌, ◌⊎◌, inl, inr, refl, true, none, some, All, All-imp, ok, err, Result, Bool-cases, nat_eq,
}
use rclpy.Dict
use rclpy.Lifecycle.{
  Error, TransitionCallbackReturn, success, failure, error, CallbackName, on_activate,
  on_deactivate, transition_callback_impl, LifecycleState, Answer, returns, returns_other, raises,
  Entity, UserCode, Rcl, LifecycleNode, call_on, caught, execute_callback, finish, process_error,
  complete, change_state, Message, publish, base_publish, simple,
}
use rclpy.Lifecycle.Entities.{on_activate-Enabled, on_deactivate-Disabled, Enabled, Disabled}

abbrev Outcome : Type 0
Outcome = Result Error TransitionCallbackReturn

error-ne-success : ◌≡◌ {A = Outcome} (ok error) (ok success) → ⊥
error-ne-success h = cc

failure-ne-success : ◌≡◌ {A = Outcome} (ok failure) (ok success) → ⊥
failure-ne-success h = cc

err-ne-success : {e : Error} → ◌≡◌ {A = Outcome} (err e) (ok success) → ⊥
err-ne-success h = cc

Answer-cases :
    (a : Answer)
    → ((code : TransitionCallbackReturn) × (a ≡ returns code))
      ⊎ ((a ≡ returns_other) ⊎ (a ≡ raises))
Answer-cases (returns code) = inl (code, refl)
Answer-cases returns_other = inr (inl refl)
Answer-cases raises = inr (inr refl)

caught_success : (a : Answer) → caught a ≡ returns success → a ≡ returns success
unfolding caught
caught_success raises h = cc
caught_success (returns r) h = h
caught_success returns_other h = cc

-- The number of the state in which a transition's callback is called.
abbrev pub state_behind : {S : Type 0} → Rcl S → ℕ → LifecycleNode S → ℕ
state_behind rcl id n =
    (rcl.current_state (rcl.trigger_transition_by_id id n.state_machine).0).state_id

module _ {S : Type 0} (rcl : Rcl S) (u : UserCode) (id : ℕ) (n : LifecycleNode S) where
  process_error-ne-success :
      (state : LifecycleState) (m : LifecycleNode S)
      → (process_error rcl u state m).0 ≡ ok success
      → ⊥
  unfolding process_error
  process_error-ne-success state m h =
      elim (Answer-cases
        (execute_callback rcl u (rcl.current_state m.state_machine).state_id state m).0) [
          | inl (code, e) ↦ error-ne-success (rw (e, process_error) at h)
          | inr (inl e) ↦ err-ne-success (rw (e, process_error) at h)
          | inr (inr e) ↦ err-ne-success (rw (e, process_error) at h)
        ]

  complete_success :
      (state : LifecycleState) (a : Answer) (m : LifecycleNode S)
      → (complete rcl u state a m).0 ≡ ok success
      → (a ≡ returns success) × ((complete rcl u state a m).1.managed_entities ≡ m.managed_entities)
  unfolding complete finish
  complete_success state raises m h = cc
  complete_success state returns_other m h = cc
  complete_success state (returns code) m h = elim (Bool-cases (finish rcl u code m).1) [
    | inr e ↦ absurd (error-ne-success (rw (e, complete) at h))
    | inl e ↦ by_code code e h
  ]
    where
      by_code :
          (code : TransitionCallbackReturn)
          → (finish rcl u code m).1 ≡ true
          → (complete rcl u state (returns code) m).0 ≡ ok success
          → (◌≡◌ {A = Answer} (returns code) (returns success))
            × ((complete rcl u state (returns code) m).1.managed_entities ≡ m.managed_entities)
      by_code success e h = rw (e, complete) (refl, refl)
      by_code failure e h = absurd (failure-ne-success (rw (e, complete) at h))
      by_code error e h =
          absurd (process_error-ne-success state (finish rcl u error m).0 (rw (e, complete) at h))

  execute_callback_default :
      (k : ℕ) (state : LifecycleState) (m : LifecycleNode S) (name : CallbackName)
      → Dict.get m.callbacks k ≡ some name
      → u.override name ≡ none
      → execute_callback rcl u k state m ≡ (
          let called = transition_callback_impl u name state m.managed_entities in
          (caught called.0, record m { managed_entities = called.1 }))
  unfolding execute_callback call_on
  execute_callback_default k state m name c o = rw (c, execute_callback, o, call_on) refl

  -- A change of state that hands back a success has run its callback, with a success, and the entities are as the
  -- callback left them.
  change_state_success :
      (change_state rcl u id n).0 ≡ ok success
      → (name : CallbackName) → Dict.get n.callbacks (state_behind rcl id n) ≡ some name
      → u.override name ≡ none
      → let called =
          transition_callback_impl u name (rcl.current_state n.state_machine) n.managed_entities in
        (called.0 ≡ returns success) × ((change_state rcl u id n).1.managed_entities ≡ called.1)
  unfolding change_state
  change_state_success h name c o = elim (Bool-cases (rcl.initialized n.state_machine)) [
    | inr i ↦ absurd (err-ne-success (rw (i, change_state) at h))
    | inl i ↦ elim (Bool-cases (rcl.trigger_transition_by_id id n.state_machine).1) [
      | inr r ↦ absurd (error-ne-success (rw (i, r, change_state) at h))
      | inl r ↦
          let state = rcl.current_state n.state_machine in
          let begun = record n {
            state_machine = (rcl.trigger_transition_by_id id n.state_machine).0;
          } in
          let called = execute_callback_default (state_behind rcl id n) state begun name c o in
          let (a, same) = complete_success state _ _ (rw (i, r, called, change_state) at h) in
          rw (i, r, called, change_state) (caught_success _ a, same)
    ]
  ]

  -- Where the machine goes to activating (deactivating) and the node's own callback for it is registered and not
  -- overridden, a change of state that hands back a success leaves every simple managed entity enabled (disabled); a
  -- publisher among them then publishes as a publisher that is not managed (publishes nothing, without an error).
  pub change_state_gates :
      {M : Type 0} (msg : Message M)
      → (change_state rcl u id n).0 ≡ ok success
      → (Dict.get n.callbacks (state_behind rcl id n) ≡ some on_activate
          → u.override on_activate ≡ none
          → All
              (λ (e : Entity). e.kind ≡ simple → publish msg e ≡ base_publish msg)
              (change_state rcl u id n).1.managed_entities)
        × (Dict.get n.callbacks (state_behind rcl id n) ≡ some on_deactivate
            → u.override on_deactivate ≡ none
            → All
                (λ (e : Entity). e.kind ≡ simple → publish msg e ≡ ok none)
                (change_state rcl u id n).1.managed_entities)
  unfolding publish
  change_state_gates msg h = (
    λ c o.
        let (a, same) = change_state_success h on_activate c o in
        rw same (
          All-imp Enabled (λ e. e.kind ≡ simple → publish msg e ≡ base_publish msg) _
            (λ e on k. rw (on k) refl)
            (on_activate-Enabled u (rcl.current_state n.state_machine) n.managed_entities a)),
    λ c o.
        let (a, same) = change_state_success h on_deactivate c o in
        rw same (
          All-imp Disabled (λ e. e.kind ≡ simple → publish msg e ≡ ok none) _
            (λ e off k. rw (off k) refl)
            (on_deactivate-Disabled u (rcl.current_state n.state_machine) n.managed_entities a)),
  )
