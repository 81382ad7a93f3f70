-- ===== src/Context/Once.antt =====
-- Sequences of methods of one context (rclpy/rclpy/context.py), and the callbacks that it calls on the way.
use rclpy.Prelude.{
  ℕ, ◌+◌, ◌≡◌, refl, sym, ap, ◌∙◌, inl, inr, Bool, true, Option, none, String, List, [], ◌∷◌, ◌++◌,
  ok, err, Result, Result-cases, Bool-cases, Option-cases, ◌==◌, arith,
}
use rclpy.Prelude.Int.{ℤ}
use rclpy.Context.{
  ContextApi, Environment, Error, runtime_error, Callback, Context, Outcome, number_of, new,
  and_then, finish, logging_fini_if_last, call_on_shutdown_callbacks, init, shut_down_handle,
  cleanup, shutdown, try_shutdown, on_shutdown, enter,
}
use rclpy.Context.Calls.{
  IsQuiet, calls, pending, one_if, Conserves, call_callbacks-all, cleanup-Conserves, calls-append,
  pending-append,
}

pub data Method : Type 0 where
  does_on_shutdown : Callback → Method
  does_shutdown : Method
  does_try_shutdown : Method
  does_init : Option (List String) → Bool → Option ℤ → Method
  does_enter : Method

-- How often a method registers a callback.
abbrev pub registers : ℕ → Method → ℕ
registers k (does_on_shutdown entry) = one_if (number_of entry == k)
registers k _ = 0

abbrev pub registered : ℕ → List Method → ℕ
registered k [] = 0
registered k (m ∷ ms) = registers k m + registered k ms

err-ne-ok : (e : Error) → ◌≡◌ {A = Result Error (Unit {0})} (err e) (ok tt) → ⊥
err-ne-ok e h = cc

module _ {C : Type 0} (env : Environment) (api : ContextApi C) where
  pub perform : Method → ℤ → Context C → Outcome C (Unit {0})
  perform (does_on_shutdown entry) g c = on_shutdown api env entry g c
  perform does_shutdown g c = shutdown api env g c
  perform does_try_shutdown g c = try_shutdown api env g c
  perform (does_init args il d) g c = init api args il d g c
  perform does_enter g c = enter api g c

  -- One method after the other. The caller goes on where one raises.
  pub run : List Method → ℤ → Context C → Outcome C (Unit {0})
  run [] g c = finish (ok tt) [] g c
  run (m ∷ ms) g c =
      let o = perform m g c in
      let rest = run ms o.g_logging_ref_count o.self in
      record rest { effects = o.effects ++ rest.effects }

  module _ (q : IsQuiet env) (k : ℕ) where
    init-Conserves :
        (args : Option (List String)) (il : Bool) (d : Option ℤ) (g : ℤ) (c : Context C)
        → Conserves env q k 0 c (init api args il d g c)
    unfolding init
    init-Conserves args il d g c = ground arith

    perform-Conserves :
        (m : Method) (g : ℤ) (c : Context C) → Conserves env q k (registers k m) c (perform m g c)
    unfolding perform shutdown try_shutdown on_shutdown enter
    perform-Conserves (does_on_shutdown entry) g c =
        ground (arith, pending-append k c.callbacks (entry ∷ []))
    perform-Conserves does_shutdown g c = elim (Option-cases c.context) [
      | inl e ↦ simp (e, shutdown) (omega arith)
      | inr (h, e) ↦ simp (e, shutdown) (cleanup-Conserves env q k api h g c)
    ]
    perform-Conserves does_try_shutdown g c = elim (Option-cases c.context) [
      | inl e ↦ simp (e, try_shutdown) (omega arith)
      | inr (h, e) ↦ elim (Bool-cases (api.is_ok h)) [
        | inl o ↦ simp (e, try_shutdown, o) (cleanup-Conserves env q k api h g c)
        | inr o ↦ simp (e, try_shutdown, o) (omega arith)
      ]
    ]
    perform-Conserves (does_init args il d) g c = init-Conserves args il d g c
    perform-Conserves does_enter g c = ground (arith, init-Conserves none true none g c)

    run-Conserves :
        (ms : List Method) (g : ℤ) (c : Context C)
        → Conserves env q k (registered k ms) c (run ms g c)
    unfolding run
    run-Conserves [] g c = omega arith
    run-Conserves (m ∷ ms) g c =
        let o = perform m g c in
        omega (
          arith,
          perform-Conserves m g c,
          run-Conserves ms o.g_logging_ref_count o.self,
          calls-append k o.effects (run ms o.g_logging_ref_count o.self).effects,
        )

  and_then-ok :
      (next : ℤ → Context C → Outcome C (Unit {0})) (o : Outcome C (Unit {0}))
      → (and_then next o).result ≡ ok tt
      → (and_then next o).self ≡ (next o.g_logging_ref_count o.self).self
  unfolding and_then
  and_then-ok next o h = elim (Result-cases o.result) [
    | inr (e, r) ↦ absurd (err-ne-ok e (sym r ∙ (rw (r, and_then) at h)))
    | inl (a, r) ↦ rw (r, and_then) refl
  ]

  fini-callbacks :
      (finishes : Bool) (g : ℤ) (c : Context C)
      → (logging_fini_if_last finishes g c).self.callbacks ≡ c.callbacks
  unfolding logging_fini_if_last
  fini-callbacks finishes g c = ground arith

  and_then_result :
      (next : ℤ → Context C → Outcome C (Unit {0})) (o : Outcome C (Unit {0}))
      → (and_then next o).result ≡ ok tt
      → o.result ≡ ok tt
  unfolding and_then
  and_then_result next o h = elim (Result-cases o.result) [
    | inr (e, r) ↦ absurd (err-ne-ok e (sym r ∙ (rw (r, and_then) at h)))
    | inl (a, r) ↦ r
  ]

  module _ (q : IsQuiet env) where
    calls_empty : (g : ℤ) (c : Context C) → (call_on_shutdown_callbacks env g c).self.callbacks ≡ []
    unfolding call_on_shutdown_callbacks
    calls_empty g c = rw (call_callbacks-all env q c.callbacks, call_on_shutdown_callbacks) refl

    -- A shutdown that ends well leaves no callback waiting.
    shutdown-empty :
        (g : ℤ) (c : Context C)
        → (shutdown api env g c).result ≡ ok tt
        → (shutdown api env g c).self.callbacks ≡ []
    unfolding shutdown cleanup
    shutdown-empty g c h = elim (Option-cases c.context) [
      | inl e ↦ absurd (err-ne-ok runtime_error (simp (e, shutdown) at h))
      | inr (handle, e) ↦
          let started = shut_down_handle api env handle g c in
          let calls_them = call_on_shutdown_callbacks env in
          let done = and_then calls_them started in
          let h' : (and_then (logging_fini_if_last api.logging_finishes) done).result ≡ ok tt =
            simp (e, shutdown) at h in
          simp (e, shutdown)
            (ap (λ (x : Context C). x.callbacks)
                (and_then-ok (logging_fini_if_last api.logging_finishes) done h')
              ∙ fini-callbacks api.logging_finishes done.g_logging_ref_count done.self
              ∙ ap (λ (x : Context C). x.callbacks)
                  (and_then-ok calls_them started
                    (and_then_result (logging_fini_if_last api.logging_finishes) done h'))
              ∙ calls_empty started.g_logging_ref_count started.self)
    ]

    -- Where the callbacks return `None` and the objects of methods are alive, whatever is done to a new context, in
    -- whatever order: a callback has been called as often as it was registered, but for the times that it still
    -- waits. Once a shutdown ends without an exception, it has been called exactly as often as it was registered.
    pub run-once :
        (k : ℕ) (ms : List Method) (g : ℤ)
        → let r = run ms g new in
          (calls k r.effects + pending k r.self.callbacks ≡ registered k ms)
          × ((shutdown api env r.g_logging_ref_count r.self).result ≡ ok tt
              → calls k (r.effects ++ (shutdown api env r.g_logging_ref_count r.self).effects)
                ≡ registered k ms)
    unfolding new perform
    run-once k ms g =
        let r = run ms g new in
        let o = shutdown api env r.g_logging_ref_count r.self in
        let before = run-Conserves q k ms g new in
        (
          omega (arith, before),
          λ h.
              let closing : Conserves env q k 0 r.self o =
                perform-Conserves q k does_shutdown r.g_logging_ref_count r.self in
              let none_waits : pending k o.self.callbacks ≡ 0 =
                ap (pending k) (shutdown-empty r.g_logging_ref_count r.self h) in
              omega (arith, before, none_waits, closing, calls-append k r.effects o.effects),
        )
