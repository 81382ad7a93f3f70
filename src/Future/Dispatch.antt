-- ===== src/Future/Dispatch.antt =====
-- How a future (rclpy/rclpy/task.py) hands on the callbacks and the tasks that wait for it.
use rclpy.Prelude.{
  ℕ, ◌≡◌, inl, inr, refl, sym, ap, ◌∙◌, false, not, Option, none, some, List, [], ◌∷◌, ◌++◌, map,
  append-nil, append_assoc, map-append, Bool-cases, if◌then◌else◌,
}
use rclpy.Future.{
  cancelled, finished, Waiter, callback, task, Effect, Future, create_task, call_task_in_next_spin,
  invoke, drop_task, dispatch, is_pending, schedule_or_invoke_done_callbacks, cancel, set_result,
  set_exception, fetch_exception, get_result, set_executor, add_done_callback, add_waiting_task,
}

-- The calls that neither take a waiter back nor leave one out.
pub data Call (V E : Type 0) : Type 0 where
  cancelling : Call V E
  giving : V → Call V E
  failing : E → Call V E
  reading : Call V E
  attaching : Option ℕ → Call V E
  adding : ℕ → Call V E
  waiting : ℕ → Call V E

-- Whom an effect is about.
abbrev pub target : Effect → Waiter
target (create_task c) = callback c
target (call_task_in_next_spin t) = task t
target (invoke c) = callback c
target (drop_task t) = task t

target-dispatch : (e : Option ℕ) (w : Waiter) → target (dispatch e w) ≡ w
target-dispatch none (callback c) = refl
target-dispatch none (task t) = refl
target-dispatch (some e) (callback c) = refl
target-dispatch (some e) (task t) = refl

targets-dispatch : (e : Option ℕ) (ws : List Waiter) → map target (map (dispatch e) ws) ≡ ws
targets-dispatch e [] = refl
targets-dispatch e (w ∷ ws) =
    ap (λ x. x ∷ map target (map (dispatch e) ws)) (target-dispatch e w)
    ∙ ap (λ l. w ∷ l) (targets-dispatch e ws)

module _ {V E : Type 0} where
  unfoldable pub perform : Call V E → Future V E → Future V E × List Effect
  perform cancelling f = cancel f
  perform (giving v) f = set_result v f
  perform (failing e) f = set_exception e f
  perform reading f = ((get_result f).1, [])
  perform (attaching e) f = (set_executor e f, [])
  perform (adding c) f = add_done_callback c false f
  perform (waiting t) f = add_waiting_task t f

  unfoldable pub perform_all : List (Call V E) → Future V E → Future V E × List Effect
  perform_all [] f = (f, [])
  perform_all (c ∷ cs) f =
      let (f', effects) = perform c f in
      let (f'', later) = perform_all cs f' in (f'', effects ++ later)

  -- The waiters that calls register, in order.
  abbrev pub registered : List (Call V E) → List Waiter
  registered [] = []
  registered (adding c ∷ cs) = callback c ∷ registered cs
  registered (waiting t ∷ cs) = task t ∷ registered cs
  registered (_ ∷ cs) = registered cs

  -- Nothing waits for a future that is not pending.
  pub record IsSettled (f : Future V E) : Type 0 where
    pub empty : is_pending f ≡ false → f.callbacks ≡ []

  -- What one call hands on and what waits behind it, of what waited before and what it registers.
  abbrev Handed : List Waiter → List Waiter → Future V E × List Effect → Type 0
  Handed before new (f', effects) =
      IsSettled f' × (map target effects ++ f'.callbacks ≡ before ++ new)

  finishing : (f : Future V E) → Handed f.callbacks [] (schedule_or_invoke_done_callbacks f)
  unfolding schedule_or_invoke_done_callbacks
  finishing f = (
    record { empty = λ _. refl },
    append-nil _ ∙ targets-dispatch f.executor f.callbacks ∙ sym (append-nil f.callbacks),
  )

  -- A new waiter waits, or is handed on at once.
  adding-Handed :
      (f : Future V E) (w : Waiter)
      → IsSettled f
      → Handed f.callbacks (w ∷ []) (
          if not (is_pending f)
          then (f, dispatch f.executor w ∷ [])
          else (record f { callbacks = f.callbacks ++ w ∷ [] }, []))
  adding-Handed f w s = elim (Bool-cases (is_pending f)) [
    | inl p ↦ rw p (record { empty = λ h. cc }, refl)
    | inr p ↦
        rw p (s, ap (λ x. x ∷ f.callbacks) (target-dispatch f.executor w) ∙ rw (s.empty p) refl)
  ]

  cancel-Handed : (f : Future V E) → IsSettled f → Handed f.callbacks [] (cancel f)
  unfolding cancel
  cancel-Handed f s = elim (Bool-cases (is_pending f)) [
    | inl p ↦ rw p (finishing (record f { state = cancelled }))
    | inr p ↦ rw p (s, sym (append-nil f.callbacks))
  ]

  perform-Handed :
      (c : Call V E) (f : Future V E)
      → IsSettled f
      → Handed f.callbacks (registered (c ∷ [])) (perform c f)
  unfolding perform set_result set_exception set_executor add_done_callback add_waiting_task
      get_result fetch_exception
  perform-Handed cancelling f s = cancel-Handed f s
  perform-Handed (giving v) f s = finishing (record f { result = some v; state = finished })
  perform-Handed (failing e) f s =
      finishing (record f { exception = some e; exception_fetched = false; state = finished })
  perform-Handed reading f s = (record { empty = s.empty }, sym (append-nil f.callbacks))
  perform-Handed (attaching e) f s = (record { empty = s.empty }, sym (append-nil f.callbacks))
  perform-Handed (adding c) f s = adding-Handed f (callback c) s
  perform-Handed (waiting t) f s = adding-Handed f (task t) s

  registered-cons :
      (c : Call V E) (cs : List (Call V E))
      → registered (c ∷ cs) ≡ registered (c ∷ []) ++ registered cs
  registered-cons cancelling cs = refl
  registered-cons (giving v) cs = refl
  registered-cons (failing e) cs = refl
  registered-cons reading cs = refl
  registered-cons (attaching e) cs = refl
  registered-cons (adding c) cs = refl
  registered-cons (waiting t) cs = refl

  -- Whatever of these calls is made on a future in whatever order, with and without an executor: those that were
  -- handed on, in the order in which they were, and behind them those that still wait are exactly those that
  -- waited at first and behind them those that were registered, in this order; and when the future is not
  -- pending any more, nobody waits. A task that no executor can resume counts as handed on when it is dropped
  -- with a warning.
  pub perform_all-registered :
      (cs : List (Call V E)) (f : Future V E)
      → IsSettled f
      → let (f', effects) = perform_all cs f in
        IsSettled f' × (map target effects ++ f'.callbacks ≡ f.callbacks ++ registered cs)
  unfolding perform_all
  perform_all-registered [] f s = (s, sym (append-nil f.callbacks))
  perform_all-registered (c ∷ cs) f s =
      let (f', effects) = perform c f in
      let (s', first) = perform-Handed c f s in
      let (f'', later) = perform_all cs f' in
      let (s'', rest) = perform_all-registered cs f' s' in
      (
        s'',
        ap (λ l. l ++ f''.callbacks) (map-append target effects later)
            ∙ append_assoc (map target effects) (map target later) f''.callbacks
            ∙ ap (λ l. map target effects ++ l) rest
            ∙ sym (append_assoc (map target effects) f'.callbacks (registered cs))
            ∙ ap (λ l. l ++ registered cs) first
            ∙ append_assoc f.callbacks (registered (c ∷ [])) (registered cs)
            ∙ ap (λ l. f.callbacks ++ l) (sym (registered-cons c cs)),
      )
