-- ===== src/Lifecycle/Entities.antt =====
-- The callbacks of managed entities: the loop of `__transition_callback_impl` (rclpy/rclpy/lifecycle/node.py) and
-- `SimpleManagedEntity` (managed_entity.py).
use rclpy.Prelude.{
  ◌≡◌, ◌⊎◌, inl, inr, refl, sym, ap, ◌∙◌, true, false, List, [], ◌∷◌, ◌++◌, map, All, arith,
}
use rclpy.Lifecycle.{
  success, failure, error, CallbackName, on_activate, on_deactivate, LifecycleState, Answer,
  returns, returns_other, raises, simple, Entity, UserCode, call_entity, transition_callback_impl,
}

-- What the loop makes of the answer of an entity at which it stops.
abbrev pub verdict : Answer → Answer
verdict raises = returns error
verdict returns_other = raises
verdict (returns code) = returns code

abbrev pub Enabled : Entity → Type 0
Enabled e = e.kind ≡ simple → e.enabled ≡ true

abbrev pub Disabled : Entity → Type 0
Disabled e = e.kind ≡ simple → e.enabled ≡ false

Answer-cases :
    (a : Answer)
    → (a ≡ returns success)
      ⊎ ((a ≡ returns failure) ⊎ ((a ≡ returns error) ⊎ ((a ≡ returns_other) ⊎ (a ≡ raises))))
Answer-cases (returns success) = inl refl
Answer-cases (returns failure) = inr (inl refl)
Answer-cases (returns error) = inr (inr (inl refl))
Answer-cases returns_other = inr (inr (inr (inl refl)))
Answer-cases raises = inr (inr (inr (inr refl)))

module _ (u : UserCode) (name : CallbackName) (state : LifecycleState) where
  abbrev pub answer_of : Entity → Answer
  answer_of e = (call_entity u name state e).0

  -- The entity behind its callback.
  abbrev pub called : Entity → Entity
  called e = (call_entity u name state e).1

  abbrev pub Succeeds : Entity → Type 0
  Succeeds e = answer_of e ≡ returns success

  abbrev pub Stops : Entity → Type 0
  Stops e = answer_of e ≡ returns success → ⊥

  -- One round.
  split :
      (e : Entity)
      → (Succeeds e
          × ((es : List Entity)
              → transition_callback_impl u name state (e ∷ es) ≡ (
                  let rest = transition_callback_impl u name state es in
                  (rest.0, called e ∷ rest.1))))
        ⊎ (Stops e
            × ((es : List Entity)
                → transition_callback_impl u name state (e ∷ es)
                  ≡ (verdict (answer_of e), called e ∷ es)))
  unfolding transition_callback_impl
  split e = elim (Answer-cases (answer_of e)) [
    | inl h ↦ inl (h, λ es. rw (h, transition_callback_impl) refl)
    | inr (inl h) ↦ inr (λ s. cc, λ es. rw (h, transition_callback_impl) refl)
    | inr (inr (inl h)) ↦ inr (λ s. cc, λ es. rw (h, transition_callback_impl) refl)
    | inr (inr (inr (inl h))) ↦ inr (λ s. cc, λ es. rw (h, transition_callback_impl) refl)
    | inr (inr (inr (inr h))) ↦ inr (λ s. cc, λ es. rw (h, transition_callback_impl) refl)
  ]

  -- The loop goes over the entities in their order. Either all of them return success, and so does the loop, with
  -- every entity called; or there is a first one that does not: those in front of it and the entity itself are
  -- called, those behind it stay as they were, and the loop has this entity's return value, an error if it raised,
  -- and raises itself if it returned something else.
  pub transition_callback_impl-cases :
      (es : List Entity)
      → (All Succeeds es
          × (transition_callback_impl u name state es ≡ (returns success, map called es)))
        ⊎ ((front : List Entity) × (e : Entity) × (back : List Entity) × (es ≡ front ++ e ∷ back)
            × All Succeeds front
            × Stops e
            × (transition_callback_impl u name state es
                ≡ (verdict (answer_of e), map called front ++ called e ∷ back)))
  unfolding transition_callback_impl
  transition_callback_impl-cases [] = inl (tt, refl)
  transition_callback_impl-cases (e ∷ es) = elim (split e) [
    | inr (s, h) ↦ inr ([], e, es, refl, tt, s, h es)
    | inl (s, h) ↦ elim (transition_callback_impl-cases es) [
      | inl (all, ih) ↦ inl ((s, all), h es ∙ ap (λ r. (r.0, called e ∷ r.1)) ih)
      | inr (front, d, back, eq, fs, ds, ih) ↦ inr (
        e ∷ front,
        d,
        back,
        ap (λ l. e ∷ l) eq,
        (s, fs),
        ds,
        h es ∙ ap (λ r. (r.0, called e ∷ r.1)) ih,
      )
    ]
  ]

verdict-ne-other : (a : Answer) → verdict a ≡ returns_other → ⊥
verdict-ne-other raises h = cc
verdict-ne-other returns_other h = cc
verdict-ne-other (returns code) h = cc

module _ (u : UserCode) (name : CallbackName) (state : LifecycleState) where
  All-called :
      (P : Entity → Type 0)
      → ((e : Entity) → P (called u name state e))
      → (es : List Entity) → All P (map (called u name state) es)
  All-called P h [] = tt
  All-called P h (e ∷ es) = (h e, All-called P h es)

  verdict_success : (a : Answer) → verdict a ≡ returns success → a ≡ returns success
  verdict_success raises h = cc
  verdict_success returns_other h = cc
  verdict_success (returns code) h = h

  Stops-ne-success :
      (e : Entity) → Stops u name state e → verdict (answer_of u name state e) ≡ returns success → ⊥
  Stops-ne-success e s h = s (verdict_success (answer_of u name state e) h)

  -- The loop never hands on that an entity returned something else.
  pub transition_callback_impl-ne-other :
      (es : List Entity) → (transition_callback_impl u name state es).0 ≡ returns_other → ⊥
  transition_callback_impl-ne-other es h = elim (transition_callback_impl-cases u name state es) [
    | inl (_, e) ↦ (let c : returns success ≡ returns_other = ap (λ r. r.0) (sym e) ∙ h in cc)
    | inr (front, d, back, _, _, s, e) ↦
        verdict-ne-other (answer_of u name state d) (ap (λ r. r.0) (sym e) ∙ h)
  ]

module _ (u : UserCode) (state : LifecycleState) where
  called-Enabled : (e : Entity) → Enabled (called u on_activate state e)
  unfolding call_entity
  called-Enabled e = ground arith

  called-Disabled : (e : Entity) → Disabled (called u on_deactivate state e)
  unfolding call_entity
  called-Disabled e = ground arith

  -- The loop makes every simple entity enabled, or disabled, where it returns success.
  pub on_activate-Enabled :
      (es : List Entity)
      → (transition_callback_impl u on_activate state es).0 ≡ returns success
      → All Enabled (transition_callback_impl u on_activate state es).1
  on_activate-Enabled es h = elim (transition_callback_impl-cases u on_activate state es) [
    | inl (all, e) ↦ rw e (All-called u on_activate state Enabled called-Enabled es)
    | inr (front, d, back, _, _, s, e) ↦
        absurd (Stops-ne-success u on_activate state d s (ap (λ r. r.0) (sym e) ∙ h))
  ]

  pub on_deactivate-Disabled :
      (es : List Entity)
      → (transition_callback_impl u on_deactivate state es).0 ≡ returns success
      → All Disabled (transition_callback_impl u on_deactivate state es).1
  on_deactivate-Disabled es h = elim (transition_callback_impl-cases u on_deactivate state es) [
    | inl (all, e) ↦ rw e (All-called u on_deactivate state Disabled called-Disabled es)
    | inr (front, d, back, _, _, s, e) ↦
        absurd (Stops-ne-success u on_deactivate state d s (ap (λ r. r.0) (sym e) ∙ h))
  ]
