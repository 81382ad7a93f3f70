-- ===== src/Context/Calls.antt =====
-- The callbacks of a context (rclpy/rclpy/context.py): and the shutdown that calls them.
use rclpy.Prelude.{
  ℕ, ◌+◌, ◌≡◌, refl, ap, inl, inr, Bool, true, false, List, [], ◌∷◌, ◌++◌, map, Result-cases,
  Option-cases, ◌==◌, arith,
}
use rclpy.Prelude.Int.{ℤ}
use rclpy.Context.{
  ContextApi, Environment, Callback, weak_method, callable, nothing, Context, Outcome, Effect, call,
  destroy_node, logging_configure, logging_fini, number_of, call_callback, call_callbacks,
  cleanup_nodes, and_then, logging_fini_if_last, call_on_shutdown_callbacks, shut_down_handle,
  cleanup,
}

abbrev pub one_if : Bool → ℕ
one_if true = 1
one_if false = 0

-- How often a callback is called.
abbrev pub calls : ℕ → List Effect → ℕ
calls k [] = 0
calls k (call n ∷ es) = one_if (n == k) + calls k es
calls k (destroy_node _ ∷ es) = calls k es
calls k (logging_configure ∷ es) = calls k es
calls k (logging_fini ∷ es) = calls k es

-- How often it waits for the shutdown.
abbrev pub pending : ℕ → List Callback → ℕ
pending k [] = 0
pending k (c ∷ cs) = one_if (number_of c == k) + pending k cs

-- The callbacks do what their type says: they return `None`. The objects of bound methods are alive.
pub record IsQuiet (env : Environment) : Type 0 where
  pub alive : (m : ℕ) → env.method_alive m ≡ true
  pub returns : (n : ℕ) → env.returned n ≡ nothing

pub calls-append : (k : ℕ) (xs ys : List Effect) → calls k (xs ++ ys) ≡ calls k xs + calls k ys
calls-append k [] ys = omega arith
calls-append k (call n ∷ xs) ys = omega (arith, calls-append k xs ys)
calls-append k (destroy_node n ∷ xs) ys = calls-append k xs ys
calls-append k (logging_configure ∷ xs) ys = calls-append k xs ys
calls-append k (logging_fini ∷ xs) ys = calls-append k xs ys

calls-nodes : (k : ℕ) (ns : List ℕ) → calls k (map destroy_node ns) ≡ 0
calls-nodes k [] = refl
calls-nodes k (n ∷ ns) = calls-nodes k ns

pub pending-append :
    (k : ℕ) (xs ys : List Callback) → pending k (xs ++ ys) ≡ pending k xs + pending k ys
pending-append k [] ys = omega arith
pending-append k (x ∷ xs) ys = omega (arith, pending-append k xs ys)

module _ (env : Environment) (q : IsQuiet env) where
  call_callback-one : (c : Callback) → call_callback env c ≡ (number_of c ∷ [], false)
  unfolding call_callback
  call_callback-one (weak_method m) = rw (q.alive m, call_callback, q.returns m) refl
  call_callback-one (callable f) = rw (q.returns f, call_callback) refl

  pub call_callbacks-all : (cs : List Callback) → call_callbacks env cs ≡ (map number_of cs, false)
  unfolding call_callbacks
  call_callbacks-all [] = refl
  call_callbacks-all (c ∷ cs) =
      rw (call_callback-one c, call_callbacks)
        (ap (λ (r : List ℕ × Bool). (number_of c ∷ r.0, r.1)) (call_callbacks-all cs))

calls-numbers : (k : ℕ) (cs : List Callback) → calls k (map call (map number_of cs)) ≡ pending k cs
calls-numbers k [] = refl
calls-numbers k (c ∷ cs) = omega (arith, calls-numbers k cs)

module _ {C : Type 0} (env : Environment) (q : IsQuiet env) (k : ℕ) where
  -- A method that registers the callback `r` times neither loses it nor calls it twice.
  abbrev pub Conserves : ℕ → Context C → Outcome C (Unit {0}) → Type 0
  Conserves r c o = calls k o.effects + pending k o.self.callbacks ≡ pending k c.callbacks + r

  and_then-Conserves :
      (next : ℤ → Context C → Outcome C (Unit {0})) (c : Context C) (o : Outcome C (Unit {0}))
      → Conserves 0 c o
      → ((g : ℤ) (c' : Context C) → Conserves 0 c' (next g c'))
      → Conserves 0 c (and_then next o)
  unfolding and_then
  and_then-Conserves next c o h keeps = elim (Result-cases o.result) [
    | inr (e, r) ↦ rw (r, and_then) h
    | inl (a, r) ↦
        rw (r, and_then)
          (omega (
            arith,
            h,
            keeps o.g_logging_ref_count o.self,
            calls-append k o.effects (next o.g_logging_ref_count o.self).effects,
          ))
  ]

  logging_fini-Conserves :
      (finishes : Bool) (g : ℤ) (c : Context C) → Conserves 0 c (logging_fini_if_last finishes g c)
  unfolding logging_fini_if_last
  logging_fini-Conserves finishes g c = ground arith

  callbacks-Conserves : (g : ℤ) (c : Context C) → Conserves 0 c (call_on_shutdown_callbacks env g c)
  unfolding call_on_shutdown_callbacks
  callbacks-Conserves g c =
      rw (call_callbacks-all env q c.callbacks, call_on_shutdown_callbacks)
        (omega (arith, calls-numbers k c.callbacks))

  module _ (api : ContextApi C) where
    handle-Conserves :
        (h : C) (g : ℤ) (c : Context C) → Conserves 0 c (shut_down_handle api env h g c)
    unfolding shut_down_handle
    handle-Conserves h g c =
        let none_called = calls-nodes k (cleanup_nodes env c.node_weak_refs).0 in
        elim (Option-cases (api.shut_down h)) [
          | inl e ↦ rw (e, shut_down_handle) (omega (arith, none_called))
          | inr (h', e) ↦ rw (e, shut_down_handle) (omega (arith, none_called))
        ]

    pub cleanup-Conserves : (h : C) (g : ℤ) (c : Context C) → Conserves 0 c (cleanup api env h g c)
    unfolding cleanup
    cleanup-Conserves h g c =
        let started = shut_down_handle api env h g c in
        let calls_them = call_on_shutdown_callbacks env in
        and_then-Conserves (logging_fini_if_last api.logging_finishes) c
          (and_then calls_them started)
          (and_then-Conserves calls_them c started (handle-Conserves h g c) callbacks-Conserves)
          (logging_fini-Conserves api.logging_finishes)
