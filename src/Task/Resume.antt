-- ===== src/Task/Resume.antt =====
-- What a call of a task (rclpy/rclpy/task.py) can come to, and where a suspended task is resumed.
use rclpy.Prelude.{
  ℕ, ◌≡◌, ◌⊎◌, inl, inr, refl, ap, ◌∙◌, true, false, none, some, List, [], ◌∷◌, ◌++◌, map, Result,
  ok, ==-refl, Bool-cases,
}
use rclpy.Future
use rclpy.Future.{Future, Effect, dispatch, call_task_in_next_spin, is_pending, Waiter}
use rclpy.Task.{
  Run, returned, raised, Yielded, a_future, nothing, other, yielded, Task, Error, complete_task,
  add_resume_callback, suspend, execute_step, release, call,
}

module _ {W X : Type 0} where
  -- The task is in the next spin, or waits for a pending future of the executor.
  abbrev pub Placed : ℕ → ℕ → Future W X → Future W X → List Effect → Type 0
  Placed id executor a a' effects =
      ((effects ≡ call_task_in_next_spin id ∷ []) × (a'.callbacks ≡ a.callbacks))
      ⊎ ((effects ≡ [])
          × (a'.callbacks ≡ a.callbacks ++ Waiter.task id ∷ [])
          × (is_pending a' ≡ true)
          × (a'.executor ≡ some executor))

  waiting-Placed :
      (id executor : ℕ) (a : Future W X)
      → a.executor ≡ some executor
      → Placed id executor a (Future.add_waiting_task id a).0 (Future.add_waiting_task id a).1
  unfolding Future.add_waiting_task
  waiting-Placed id executor a h = elim (Bool-cases (is_pending a)) [
    | inl p ↦ rw p (inr (refl, refl, p, h))
    | inr p ↦ rw (p, h) (inl (refl, refl))
  ]

  resume_own :
      (id executor : ℕ) (a : Future W X)
      → a.executor ≡ some executor
      → add_resume_callback id executor a ≡ ok (Future.add_waiting_task id a)
  unfolding add_resume_callback
  resume_own id executor a h = simp (h, add_resume_callback, ==-refl executor) refl

  -- A yield that the task can be resumed from.
  suspend-Placed :
      (id executor : ℕ) (y : Yielded) (a : Future W X)
      → (y ≡ other → ⊥)
      → (a.executor ≡ none) ⊎ (a.executor ≡ some executor)
      → (a' : Future W X) × (effects : List Effect) × (suspend id y (some executor) a
          ≡ ok (a', effects))
        × Placed id executor a a' effects
  unfolding suspend add_resume_callback Future.set_executor
  suspend-Placed id executor other a h e = absurd (h refl)
  suspend-Placed id executor nothing a h e =
      (a, call_task_in_next_spin id ∷ [], refl, inl (refl, refl))
  suspend-Placed id executor a_future a h (inl e) =
      let b = record a { executor = some executor } in
      (
        (Future.add_waiting_task id b).0,
        (Future.add_waiting_task id b).1,
        rw (e, add_resume_callback) refl,
        waiting-Placed id executor b refl,
      )
  suspend-Placed id executor a_future a h (inr e) = (
    (Future.add_waiting_task id a).0,
    (Future.add_waiting_task id a).1,
    resume_own id executor a e,
    waiting-Placed id executor a e,
  )

module _ {V E H : Type 0} where
  -- The task is over, and all that waited for it was handed on.
  pub record Ended (f : Future V E) (t' : Task V E H) (effects : List Effect) : Type 0 where
    pub not_pending : is_pending t'.future ≡ false
    pub handler : t'.handler ≡ none
    pub callbacks : t'.future.callbacks ≡ []
    pub handed : effects ≡ map (dispatch f.executor) f.callbacks

module _ {V E H W X : Type 0} where
  -- The task has a step left, and is placed where it will be resumed.
  pub record Suspended (id executor : ℕ) (f : Future V E) (t' : Task V E H) (a a' : Future W X)
      (effects : List Effect) : Type 0 where
    pub future : t'.future ≡ f
    pub rest : (h : H) × (t'.handler ≡ some h)
    pub place : Placed id executor a a' effects

  abbrev pub Ends :
      ℕ
      → ℕ
      → Future W X
      → Future V E
      → Result Error (List Effect) × Task V E H × Future W X
      → Type 0
  Ends id executor a f (r, t', a') =
      (effects : List Effect) × (r ≡ ok effects)
      × (t'.executing ≡ false)
      × (t'.locked ≡ false)
      × (((a' ≡ a) × Ended f t' effects) ⊎ Suspended id executor f t' a a' effects)

  execute_step-Ends :
      (id executor : ℕ) (run : Run V E H) (a : Future W X) (t : Task V E H)
      → t.future.executor ≡ some executor
      → (a.executor ≡ none) ⊎ (a.executor ≡ some executor)
      → ((h : H) → run ≡ yielded other h → ⊥)
      → Ends id executor a t.future (release (execute_step id run a t))
  unfolding execute_step complete_task Future.set_result Future.set_exception
      Future.schedule_or_invoke_done_callbacks
  execute_step-Ends id executor (returned v) a t x e known = (
    _,
    refl,
    refl,
    refl,
    inl (refl, record { not_pending = refl; handler = refl; callbacks = refl; handed = refl }),
  )
  execute_step-Ends id executor (raised w) a t x e known = (
    _,
    refl,
    refl,
    refl,
    inl (refl, record { not_pending = refl; handler = refl; callbacks = refl; handed = refl }),
  )
  execute_step-Ends id executor (yielded y h) a t x e known =
      let (a', effects, done, placed) =
        suspend-Placed id executor y a (λ o. known h (ap (λ z. yielded z h) o)) e in
      rw (ap (λ o. suspend id y o a) x ∙ done, execute_step)
        (
          effects,
          refl,
          refl,
          refl,
          inr (record { future = refl; rest = (h, refl); place = placed }),
        )

  call_go :
      (id : ℕ) (run : H → Run V E H) (h : H) (a : Future W X) (t : Task V E H)
      → is_pending t.future ≡ true
      → t.executing ≡ false
      → t.locked ≡ false
      → t.handler ≡ some h
      → call id run a t
        ≡ release (execute_step id (run h) a (record t { executing = true; locked = true }))
  unfolding call
  call_go id run h a t p ex l there = simp (p, ex, l, there, call) refl

  -- A pending task that is called, and that no thread executes, either is over after one step, with nothing
  -- left to run, and all that waited for it is handed on once in order; or it is suspended with its future as
  -- before, and then it either is in the next spin, or waits for a pending future of the executor, once, behind
  -- those that waited for it. No one executes it
  -- any more and its lock is free, so that it can be called again. This holds if the task has an executor, and a coroutine
  -- yields `None` or a future of no executor or of this one.
  pub call-Ends :
      (id executor : ℕ) (run : H → Run V E H) (h : H) (a : Future W X) (t : Task V E H)
      → is_pending t.future ≡ true
      → t.executing ≡ false
      → t.locked ≡ false
      → t.handler ≡ some h
      → t.future.executor ≡ some executor
      → (a.executor ≡ none) ⊎ (a.executor ≡ some executor)
      → ((rest : H) → run h ≡ yielded other rest → ⊥)
      → Ends id executor a t.future (call id run a t)
  call-Ends id executor run h a t p ex l there x e known = rw (call_go id run h a t p ex l there) (
      execute_step-Ends id executor (run h) a (record t { executing = true; locked = true }) x e
        known)
