-- ===== src/Context.antt =====
-- rclpy/rclpy/context.py, class Context, whose lock every method holds for its whole length, and what a node does to its
-- context when it is destroyed (node.py). The context of the C library is a parameter, `ContextApi`. Nodes and
-- callbacks are numbers; which weak references are alive, and what a callback returns, is an `Environment`.
pub mod Nodes
pub mod Once
pub mod Logging
pub mod Process
pub mod Calls
mod Samples
use rclpy.Prelude.{
  ℕ, zero, suc, ◌-◌, Bool, true, false, ◌&&◌, ◌||◌, not, Option, none, some, String, List, [], ◌∷◌,
  ◌++◌, map, length, get_elem?, Result, ok, err, if◌then◌else◌, ◌==◌, ltb,
}
use rclpy.Prelude.Int.{ℤ, pos, negsuc, ◌+ℤ◌, ◌-ℤ◌, ltb_ℤ, eqb_ℤ}

pub data Error : Type 0 where
  runtime_error rcl_error value_error callback_error : Error

pub record ContextApi (C : Type 0) : Type 0 where
  -- `none` where the C library raises
  pub create : List String → ℤ → Option C
  pub is_ok : C → Bool
  pub shut_down : C → Option C
  pub domain_id : C → ℕ
  pub default_domain_id : ℤ
  pub argv : List String
  -- whether configuring logging for a context, and finishing it, return; else they raise
  pub logging_configures : C → Bool
  pub logging_finishes : Bool

-- An entry of `_callbacks`: a weak reference to a bound method, or the callable itself.
pub data Callback : Type 0 where
  weak_method : ℕ → Callback
  callable : ℕ → Callback

-- What a call of user code comes to: it returns `None`, a callable, something else, or raises.
pub data Returned : Type 0 where
  nothing : Returned
  function : ℕ → Returned
  other : Returned
  raised : Returned

pub record Environment : Type 0 where
  pub method_alive : ℕ → Bool
  pub node_alive : ℕ → Bool
  pub returned : ℕ → Returned

pub record Context (C : Type 0) : Type 0 where
  pub context : Option C
  pub callbacks : List Callback
  pub logging_initialized : Bool
  pub node_weak_refs : List ℕ

pub data Effect : Type 0 where
  call : ℕ → Effect
  destroy_node : ℕ → Effect
  logging_configure logging_fini : Effect

-- What a method leaves: how it ended, the context, `g_logging_ref_count`, and what it did outside.
pub record Outcome (C A : Type 0) : Type 0 where
  pub result : Result Error A
  pub self : Context C
  pub g_logging_ref_count : ℤ
  pub effects : List Effect

-- The search of `untrack_node`: a reference that is dead is no node.
unfoldable pub untrack : (ℕ → Bool) → ℕ → List ℕ → List ℕ
untrack alive node [] = []
untrack alive node (weak_node ∷ refs) =
    let rest = untrack alive node refs in
    if alive weak_node && weak_node == node then refs else weak_node ∷ rest

-- `Node.destroy_node` and the one of `BaseNode` behind it, as far as the context sees them.
unfoldable pub destroy : (ℕ → Bool) → ℕ → List ℕ → List ℕ
unfolding untrack
destroy alive node refs = untrack alive node (untrack alive node refs)

-- The first loop of `_cleanup`, at index `i` of the list, which the nodes shorten. `none` means that the fuel ran out.
-- What is destroyed, and the list behind the loop.
unfoldable pub cleanup_loop : (ℕ → Bool) → ℕ → ℕ → List ℕ → Option (List ℕ × List ℕ)
unfolding destroy
cleanup_loop alive zero i refs = none
cleanup_loop alive (suc fuel) i refs = elim (get_elem? refs i) [
  | none ↦ some ([], refs)
  | some node ↦ elim (alive node) [
    | false ↦ cleanup_loop alive fuel (suc i) refs
    | true ↦ elim (cleanup_loop alive fuel (suc i) (destroy alive node refs)) [
      | none ↦ none
      | some (destroyed, left) ↦ some (node ∷ destroyed, left)
    ]
  ]
]

abbrev pub is_raised : Returned → Bool
is_raised raised = true
is_raised _ = false

-- One round of the loop of `_call_on_shutdown_callbacks`: what is called, and whether a call raised.
unfoldable pub call_callback : Environment → Callback → List ℕ × Bool
call_callback env (weak_method m) =
    if env.method_alive m then (m ∷ [], is_raised (env.returned m)) else ([], false)
call_callback env (callable f) = elim (env.returned f) [
  | nothing ↦ (f ∷ [], false)
  | function g ↦ (f ∷ g ∷ [], is_raised (env.returned g))
  | other ↦ (f ∷ [], true)
  | raised ↦ (f ∷ [], true)
]

unfoldable pub call_callbacks : Environment → List Callback → List ℕ × Bool
unfolding call_callback
call_callbacks env [] = ([], false)
call_callbacks env (c ∷ cs) =
    let rest = call_callbacks env cs in
    let called = call_callback env c in if called.1 then called else (called.0 ++ rest.0, rest.1)

-- `self._callbacks.remove(weak_method)`, which the weak reference calls when its object goes.
unfoldable pub remove_first : ℕ → List Callback → Option (List Callback)
remove_first m [] = none
remove_first m (callable f ∷ cs) = elim (remove_first m cs) [
  | none ↦ none
  | some cs' ↦ some (callable f ∷ cs')
]
remove_first m (weak_method k ∷ cs) =
    let rest = remove_first m cs in
    if k == m then some cs else elim rest [ none ↦ none | some cs' ↦ some (weak_method k ∷ cs') ]

-- The part of `_cleanup` that concerns the nodes. The fuel is enough for the loop.
unfoldable pub cleanup_nodes : Environment → List ℕ → List ℕ × List ℕ
unfolding cleanup_loop
cleanup_nodes env refs = elim (cleanup_loop env.node_alive (suc (length refs)) 0 refs) [
  | none ↦ ([], refs)
  | some r ↦ r
]

-- The callback that an entry stands for.
abbrev pub number_of : Callback → ℕ
number_of (weak_method m) = m
number_of (callable f) = f

abbrev pub or_default {ℓ} : {A : Type ℓ} → A → Option A → A
or_default a none = a
or_default a (some b) = b

abbrev is_negative : Option ℤ → Bool
is_negative none = false
is_negative (some d) = ltb_ℤ d (pos 0)

module _ {C : Type 0} where
  -- A method that ends like this.
  abbrev pub finish : Result Error (Unit {0}) → List Effect → ℤ → Context C → Outcome C (Unit {0})
  finish result effects g c = record {
    result = result;
    self = c;
    g_logging_ref_count = g;
    effects = effects;
  }

  unfoldable pub new : Context C
  new = record { context = none; callbacks = []; logging_initialized = false; node_weak_refs = [] }

  unfoldable pub track_node : ℕ → Context C → Context C
  track_node node c = record c { node_weak_refs = c.node_weak_refs ++ node ∷ [] }

  unfoldable pub untrack_node : Environment → ℕ → Context C → Context C
  unfolding untrack
  untrack_node env node c = record c {
    node_weak_refs = untrack env.node_alive node c.node_weak_refs;
  }

  -- `_call_on_shutdown_callbacks`
  unfoldable pub call_on_shutdown_callbacks : Environment → ℤ → Context C → Outcome C (Unit {0})
  unfolding call_callbacks
  call_on_shutdown_callbacks env g c =
      let called = call_callbacks env c.callbacks in
      record {
        result = if called.1 then err callback_error else ok tt;
        self = if called.1 then c else record c { callbacks = [] };
        g_logging_ref_count = g;
        effects = map call called.0;
      }

  -- `_logging_fini`
  unfoldable pub logging_fini_if_last : Bool → ℤ → Context C → Outcome C (Unit {0})
  logging_fini_if_last finishes g c =
      let g' = g -ℤ pos 1 in
      let negative = ltb_ℤ g' (pos 0) in
      if c.logging_initialized && (eqb_ℤ g' (pos 0) && not finishes)
      then finish (err rcl_error) [] g' c
      else if c.logging_initialized
      then record {
        result = if negative then err runtime_error else ok tt;
        self = if negative then c else record c { logging_initialized = false };
        g_logging_ref_count = g';
        effects = if eqb_ℤ g' (pos 0) then logging_fini ∷ [] else [];
      }
      else finish (ok tt) [] g c

  unfoldable pub remove_callback : ℕ → Context C → Result Error (Context C)
  unfolding remove_first
  remove_callback m c = elim (remove_first m c.callbacks) [
    | none ↦ err value_error
    | some cs ↦ ok (record c { callbacks = cs })
  ]

  -- Two parts of a method, the second one only where the first did not raise.
  unfoldable pub and_then :
      (ℤ → Context C → Outcome C (Unit {0})) → Outcome C (Unit {0}) → Outcome C (Unit {0})
  and_then next o = elim o.result [
    | err e ↦ o
    | ok _ ↦
        let o' = next o.g_logging_ref_count o.self in
        record o' { effects = o.effects ++ o'.effects }
  ]

module _ {C : Type 0} (api : ContextApi C) where
  -- `Context.init`
  unfoldable pub init :
      Option (List String) → Bool → Option ℤ → ℤ → Context C → Outcome C (Unit {0})
  init args initialize_logging domain_id g c =
      let first = if eqb_ℤ (g +ℤ pos 1) (pos 1) then logging_configure ∷ [] else [] in
      if is_negative domain_id then finish (err runtime_error) [] g c else elim c.context [
        | some _ ↦ finish (err runtime_error) [] g c
        | none ↦
            elim (api.create (or_default api.argv args)
              (or_default api.default_domain_id domain_id)) [
                | none ↦ finish (err rcl_error) [] g c
                | some h ↦
                    if (initialize_logging && not c.logging_initialized)
                      && (eqb_ℤ (g +ℤ pos 1) (pos 1) && not (api.logging_configures h))
                    then finish (err rcl_error) [] (g +ℤ pos 1) (record c { context = some h })
                    else if initialize_logging && not c.logging_initialized
                    then finish (ok tt) first (g +ℤ pos 1)
                        (record c { context = some h; logging_initialized = true })
                    else finish (ok tt) [] g (record c { context = some h })
              ]
      ]

  -- `Context.ok`
  unfoldable pub is_ok : Context C → Bool
  is_ok c = elim c.context [ none ↦ false | some h ↦ api.is_ok h ]

  -- `_cleanup` up to the shutdown of the C library's context.
  unfoldable pub shut_down_handle : Environment → C → ℤ → Context C → Outcome C (Unit {0})
  shut_down_handle env h g c =
      let nodes = cleanup_nodes env c.node_weak_refs in
      let swept = record c { node_weak_refs = nodes.1 } in
      let effects = map destroy_node nodes.0 in
      elim (api.shut_down h) [
        | none ↦ finish (err rcl_error) effects g swept
        | some h' ↦ finish (ok tt) effects g (record swept { context = some h' })
      ]

  -- `_cleanup`, for a context that was initialized.
  unfoldable pub cleanup : Environment → C → ℤ → Context C → Outcome C (Unit {0})
  unfolding cleanup_nodes shut_down_handle call_on_shutdown_callbacks logging_fini_if_last and_then
  cleanup env h g c =
      and_then (logging_fini_if_last api.logging_finishes)
        (and_then (call_on_shutdown_callbacks env) (shut_down_handle env h g c))

  unfoldable pub shutdown : Environment → ℤ → Context C → Outcome C (Unit {0})
  unfolding cleanup
  shutdown env g c = elim c.context [
    | none ↦ finish (err runtime_error) [] g c
    | some h ↦ cleanup env h g c
  ]

  unfoldable pub try_shutdown : Environment → ℤ → Context C → Outcome C (Unit {0})
  unfolding cleanup
  try_shutdown env g c = elim c.context [
    | none ↦ finish (ok tt) [] g c
    | some h ↦ if api.is_ok h then cleanup env h g c else finish (ok tt) [] g c
  ]

  -- `on_shutdown`, behind the type test: a callback is kept by `entry`, and called at once by its number.
  unfoldable pub on_shutdown : Environment → Callback → ℤ → Context C → Outcome C (Unit {0})
  on_shutdown env entry g c =
      let kept = finish (ok tt) [] g (record c { callbacks = c.callbacks ++ entry ∷ [] }) in
      elim c.context [
        | none ↦ kept
        | some h ↦
            if not (api.is_ok h)
            then finish
                (if is_raised (env.returned (number_of entry)) then err callback_error else ok tt)
                (call (number_of entry) ∷ []) g c
            else kept
      ]

  unfoldable pub get_domain_id : Context C → Result Error ℕ
  get_domain_id c = elim c.context [ none ↦ err runtime_error | some h ↦ ok (api.domain_id h) ]

  -- `__enter__`; `__exit__` is `try_shutdown`.
  unfoldable pub enter : ℤ → Context C → Outcome C (Unit {0})
  unfolding init
  enter g c = elim c.context [ none ↦ init none true none g c | some h ↦ finish (ok tt) [] g c ]
