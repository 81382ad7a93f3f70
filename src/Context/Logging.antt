-- ===== src/Context/Logging.antt =====
-- The count of the contexts that use logging (rclpy/rclpy/context.py, g_logging_ref_count), over all contexts of a
-- process.
use rclpy.Prelude.{
  ℕ, ◌+◌, ◌≡◌, refl, ◌∙◌, inl, inr, Bool, true, false, Option, none, some, String, List, [], ◌∷◌,
  ◌++◌, map, ok, Result, Result-cases, Bool-cases, Option-cases, ltb, arith,
}
use rclpy.Prelude.Int.{ℤ, pos, ◌+ℤ◌, ◌-ℤ◌}
use rclpy.Context.{
  or_default, ContextApi, Error, Environment, Callback, Context, Outcome, Effect, call,
  destroy_node, logging_configure, logging_fini, and_then, finish, logging_fini_if_last,
  shut_down_handle, call_callbacks, cleanup_nodes, call_on_shutdown_callbacks, init, cleanup,
  shutdown, try_shutdown, on_shutdown, enter,
}

abbrev pub bit : Bool → ℕ
bit true = 1
bit false = 0

-- The logging of the C library, configured or not: `none` where it is configured twice, or finished without having
-- been configured.
abbrev pub drive_one : Effect → Bool → Option Bool
drive_one logging_configure false = some true
drive_one logging_configure true = none
drive_one logging_fini true = some false
drive_one logging_fini false = none
drive_one (call _) b = some b
drive_one (destroy_node _) b = some b

abbrev pub drive : List Effect → Bool → Option Bool
drive [] b = some b
drive (e ∷ es) b = elim (drive_one e b) [ none ↦ none | some b' ↦ drive es b' ]

drive-append :
    (xs ys : List Effect) (b c : Bool) → drive xs b ≡ some c → drive (xs ++ ys) b ≡ drive ys c
drive-append [] ys b c h = ground (arith, h)
drive-append (e ∷ xs) ys b c h = elim (Option-cases (drive_one e b)) [
  | inl n ↦ (let h' : none ≡ some c = rw (n, drive) at h in cc)
  | inr (b', s) ↦ rw (s, drive) (drive-append xs ys b' c (rw (s, drive) at h))
]

drive-nodes : (ns : List ℕ) (b : Bool) → drive (map destroy_node ns) b ≡ some b
drive-nodes [] b = refl
drive-nodes (n ∷ ns) b = drive-nodes ns b

drive-calls : (ns : List ℕ) (b : Bool) → drive (map call ns) b ≡ some b
drive-calls [] b = refl
drive-calls (n ∷ ns) b = drive-calls ns b

-- Configuring the logging of the C library and finishing it do not raise.
pub record LoggingWorks {C : Type 0} (api : ContextApi C) : Type 0 where
  pub configures : (h : C) → api.logging_configures h ≡ true
  pub finishes : api.logging_finishes ≡ true

module _ {C : Type 0} where
  -- A method of a context, beside `k` others that use logging, counts right and drives logging right.
  abbrev pub Good : ℕ → Context C → Outcome C (Unit {0}) → Type 0
  Good k c o =
      (o.g_logging_ref_count ≡ pos (k + bit o.self.logging_initialized))
      × (drive o.effects (ltb 0 (k + bit c.logging_initialized))
          ≡ some (ltb 0 (k + bit o.self.logging_initialized)))

  and_then-Good :
      (next : ℤ → Context C → Outcome C (Unit {0})) (k : ℕ) (c : Context C)
      (o : Outcome C (Unit {0}))
      → Good k c o
      → ((c' : Context C) → Good k c' (next (pos (k + bit c'.logging_initialized)) c'))
      → Good k c (and_then next o)
  unfolding and_then
  and_then-Good next k c o good keeps = elim (Result-cases o.result) [
    | inr (e, h) ↦ rw (h, and_then) good
    | inl (a, h) ↦
        let later = keeps o.self in
        rw (h, and_then, good.0) (later.0, drive-append o.effects _ _ _ good.1 ∙ later.1)
  ]

  pub logging_fini_if_last-Good :
      (k : ℕ) (c : Context C)
      → Good k c (logging_fini_if_last true (pos (k + bit c.logging_initialized)) c)
        × ((logging_fini_if_last true (pos (k + bit c.logging_initialized)) c).result ≡ ok tt)
  unfolding logging_fini_if_last ◌-ℤ◌
  logging_fini_if_last-Good k c = ground arith

  callbacks-Good :
      (env : Environment) (k : ℕ) (c : Context C)
      → Good k c (call_on_shutdown_callbacks env (pos (k + bit c.logging_initialized)) c)
  unfolding call_on_shutdown_callbacks
  callbacks-Good env k c = elim (Bool-cases (call_callbacks env c.callbacks).1) [
    | inl e ↦ rw e (refl, drive-calls (call_callbacks env c.callbacks).0 _)
    | inr e ↦ rw e (refl, drive-calls (call_callbacks env c.callbacks).0 _)
  ]

  finish-Good :
      (k : ℕ) (c c' : Context C) (r : Result Error (Unit {0}))
      → c'.logging_initialized ≡ c.logging_initialized
      → Good k c (finish r [] (pos (k + bit c.logging_initialized)) c')
  finish-Good k c c' r same = rw same (refl, refl)

  module _ (api : ContextApi C) (works : LoggingWorks api) (k : ℕ) (c : Context C) where
    abbrev g : ℤ
    g = pos (k + bit c.logging_initialized)

    init-Good :
        (args : Option (List String)) (il : Bool) (d : Option ℤ) → Good k c (init api args il d g c)
    unfolding init ◌+ℤ◌
    init-Good args il d =
        elim (Option-cases
          (api.create (or_default api.argv args) (or_default api.default_domain_id d))) [
            | inl e ↦ ground arith
            | inr (h, e) ↦ ground (arith, works.configures h)
          ]

    shut_down_handle-Good : (env : Environment) (h : C) → Good k c (shut_down_handle api env h g c)
    unfolding shut_down_handle
    shut_down_handle-Good env h = elim (Option-cases (api.shut_down h)) [
      | inl e ↦
          rw (e, shut_down_handle) (refl, drive-nodes (cleanup_nodes env c.node_weak_refs).0 _)
      | inr (h', e) ↦
          rw (e, shut_down_handle) (refl, drive-nodes (cleanup_nodes env c.node_weak_refs).0 _)
    ]

    cleanup-Good : (env : Environment) (h : C) → Good k c (cleanup api env h g c)
    unfolding cleanup
    cleanup-Good env h =
        let started = shut_down_handle api env h g c in
        let calls = call_on_shutdown_callbacks env in
        let after_calls =
          and_then-Good calls k c started (shut_down_handle-Good env h) (callbacks-Good env k) in
        rw (works.finishes) (
          and_then-Good (logging_fini_if_last true) k c (and_then calls started) after_calls
            (λ c'. (logging_fini_if_last-Good k c').0))

    shutdown-Good : (env : Environment) → Good k c (shutdown api env g c)
    unfolding shutdown
    shutdown-Good env = elim (Option-cases c.context) [
      | inl e ↦ simp (e, shutdown) (refl, refl)
      | inr (h, e) ↦ simp (e, shutdown) (cleanup-Good env h)
    ]

    try_shutdown-Good : (env : Environment) → Good k c (try_shutdown api env g c)
    unfolding try_shutdown
    try_shutdown-Good env = elim (Option-cases c.context) [
      | inl e ↦ simp (e, try_shutdown) (refl, refl)
      | inr (h, e) ↦ elim (Bool-cases (api.is_ok h)) [
        | inl o ↦ simp (e, try_shutdown, o) (cleanup-Good env h)
        | inr o ↦ simp (e, try_shutdown, o) (refl, refl)
      ]
    ]

    on_shutdown-Good :
        (env : Environment) (entry : Callback) → Good k c (on_shutdown api env entry g c)
    unfolding on_shutdown
    on_shutdown-Good env entry = ground arith

    enter-Good : Good k c (enter api g c)
    unfolding enter ◌+ℤ◌
    enter-Good = ground (arith, init-Good none true none)

  -- What the methods of a context, and the executors and nodes that it belongs to, do to it.
  pub data Operation (api : ContextApi C) (g : ℤ) (c : Context C)
      : Outcome C (Unit {0}) → Type 0 where
    does_init :
        (args : Option (List String)) (il : Bool) (d : Option ℤ)
        → Operation api g c (init api args il d g c)
    does_shutdown : (env : Environment) → Operation api g c (shutdown api env g c)
    does_try_shutdown : (env : Environment) → Operation api g c (try_shutdown api env g c)
    does_on_shutdown :
        (env : Environment) (entry : Callback) → Operation api g c (on_shutdown api env entry g c)
    does_enter : Operation api g c (enter api g c)
    -- Tracking nodes, dropping callbacks and the C library's own changes leave logging alone.
    does_other :
        (c' : Context C)
        → c'.logging_initialized ≡ c.logging_initialized
        → Operation api g c (finish (ok tt) [] g c')

  pub Operation-Good :
      (api : ContextApi C) (works : LoggingWorks api) (k : ℕ) (c : Context C)
      {o : Outcome C (Unit {0})}
      → Operation api (pos (k + bit c.logging_initialized)) c o
      → Good k c o
  Operation-Good api works k c (does_init args il d) = init-Good api works k c args il d
  Operation-Good api works k c (does_shutdown env) = shutdown-Good api works k c env
  Operation-Good api works k c (does_try_shutdown env) = try_shutdown-Good api works k c env
  Operation-Good api works k c (does_on_shutdown env entry) =
      on_shutdown-Good api works k c env entry
  Operation-Good api works k c does_enter = enter-Good api works k c
  Operation-Good api works k c (does_other c' same) = finish-Good k c c' (ok tt) same
