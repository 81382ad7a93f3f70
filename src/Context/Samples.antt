-- ===== src/Context/Samples.antt =====
-- A context of a C library that is shut down once, with three nodes and two callbacks.
use rclpy.Prelude.{
  ℕ, suc, ◌+◌, ◌*◌, ◌≤◌, ◌≡◌, refl, Bool, true, false, none, some, List, [], ◌∷◌, ◌++◌, All, all,
  length, ok, err, if◌then◌else◌, ltb, ◌==◌,
}
use rclpy.Prelude.Int.{pos, ◌+ℤ◌, ◌-ℤ◌}
use rclpy.Context.{
  ContextApi, Environment, weak_method, callable, nothing, function, Context, call, destroy_node,
  logging_fini, new, init, shutdown, try_shutdown, cleanup_nodes, cleanup_loop,
  logging_fini_if_last, remove_callback, value_error, get_domain_id, runtime_error, call_callbacks,
}
use rclpy.Context.Nodes.{destroyed, left, cleanup_nodes-sweep}
use rclpy.Context.Logging.{does_init}
use rclpy.Context.Process.{World, makes, runs, Reach, here, next, count, Reach-IsCounted}
use rclpy.Context.Calls.{IsQuiet, calls, pending}
use rclpy.Context.Once.{Method, does_on_shutdown, does_try_shutdown, registered, run, run-once}

abbrev api : ContextApi Bool
api = record {
  create = λ _ _. some true;
  is_ok = λ h. h;
  shut_down = λ h. if h then some false else none;
  domain_id = λ _. 0;
  default_domain_id = pos 0;
  argv = [];
  logging_configures = λ _. true;
  logging_finishes = true;
}

abbrev env : Environment
env = record { method_alive = λ _. true; node_alive = λ _. true; returned = λ _. nothing }

abbrev started : Context Bool
started = record {
  context = some true;
  callbacks = weak_method 7 ∷ callable 8 ∷ [];
  logging_initialized = true;
  node_weak_refs = 1 ∷ 2 ∷ 3 ∷ [];
}

-- The second node is not destroyed, and is still tracked.
every_other_node : try_shutdown api env (pos 1) started ≡ record {
  result = ok tt;
  self = record {
    context = some false;
    callbacks = [];
    logging_initialized = false;
    node_weak_refs = 2 ∷ [];
  };
  g_logging_ref_count = pos 0;
  effects = destroy_node 1 ∷ destroy_node 3 ∷ call 7 ∷ call 8 ∷ logging_fini ∷ [];
}
unfolding try_shutdown ◌-ℤ◌
every_other_node = refl

-- A callable that returns another one has that called too.
calls_twice :
    call_callbacks
      (record env { returned = λ n. if n == 8 then function 9 else nothing })
      (callable 8 ∷ [])
    ≡ (8 ∷ 9 ∷ [], false)
unfolding call_callbacks
calls_twice = refl

unknown_callback : remove_callback 5 started ≡ err value_error
unfolding remove_callback
unknown_callback = refl

no_domain : get_domain_id api (new {C = Bool}) ≡ err runtime_error
unfolding get_domain_id new
no_domain = refl

cleanup_nodes-sweep_example :
    let refs : List ℕ = 1 ∷ 2 ∷ 3 ∷ [] in
    (cleanup_loop env.node_alive (suc (length refs)) 0 refs
      ≡ some (destroyed env.node_alive refs, left env.node_alive refs))
    × (cleanup_nodes env refs ≡ (destroyed env.node_alive refs, left env.node_alive refs))
    × (all env.node_alive refs ≡ true
        → (length refs ≤ 2 * length (cleanup_nodes env refs).0)
          × (2 * length (cleanup_nodes env refs).0 ≤ suc (length refs)))
cleanup_nodes-sweep_example = cleanup_nodes-sweep env (1 ∷ 2 ∷ 3 ∷ []) (refl, (refl, (refl, tt)))

abbrev empty_world : World Bool
empty_world = record { contexts = []; g_logging_ref_count = pos 0; configured = some false }

-- A process with one context, which is initialized.
abbrev running : World Bool
running = record {
  contexts = (init api none true none (pos 0) new).self ∷ [];
  g_logging_ref_count = (init api none true none (pos 0) new).g_logging_ref_count;
  configured = some true;
}

Reach-running : Reach api running
unfolding init new ◌+ℤ◌
Reach-running = next (next here makes) (runs [] new [] refl (does_init none true none))

Reach-IsCounted_example :
    (running.g_logging_ref_count ≡ pos (count running.contexts))
    × (running.configured ≡ some (ltb 0 (count running.contexts)))
    × All
        (λ (c : Context Bool).
          (logging_fini_if_last api.logging_finishes running.g_logging_ref_count c).result ≡ ok tt)
        running.contexts
Reach-IsCounted_example =
    Reach-IsCounted api (record { configures = λ h. refl; finishes = refl }) Reach-running

env-IsQuiet : IsQuiet env
env-IsQuiet = record { alive = λ m. refl; returns = λ n. refl }

abbrev methods : List Method
methods = does_on_shutdown (callable 8) ∷ does_try_shutdown ∷ []

run-once_example :
    let r = run env api methods (pos 0) new in
    (calls 8 r.effects + pending 8 r.self.callbacks ≡ registered 8 methods)
    × ((shutdown api env r.g_logging_ref_count r.self).result ≡ ok tt
        → calls 8 (r.effects ++ (shutdown api env r.g_logging_ref_count r.self).effects)
          ≡ registered 8 methods)
run-once_example = run-once env api env-IsQuiet 8 methods (pos 0)
