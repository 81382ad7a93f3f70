-- ===== src/Lifecycle.antt =====
-- rclpy/rclpy/lifecycle: the transitions of class LifecycleNodeMixin (node.py), the managed entities
-- (managed_entity.py) and the publisher among them (publisher.py). The state machine is that of the C library, a
-- parameter `Rcl`; the constants of the message packages are a parameter `Msgs`. User code gives answers: a managed
-- entity's callback by its number, and an override of a node's callback as a function of the entities.
pub mod Entities
pub mod Gates
pub mod Machine
mod Samples
use rclpy.Prelude.{
  ℕ, Bool, true, false, Option, none, some, String, List, [], ◌∷◌, Result, ok, err, if◌then◌else◌,
  ◌==◌, any, keep, not, ◌++◌, map, nat_eq, string_eq, ◌=?◌,
}
use rclpy.Dict
use rclpy.Dict.{Dict}

pub data TransitionCallbackReturn : Type 0 where
  success failure error : TransitionCallbackReturn

pub data CallbackName : Type 0 where
  on_configure on_cleanup on_shutdown on_activate on_deactivate on_error : CallbackName

pub record LifecycleState : Type 0 where
  pub label : String
  pub state_id : ℕ

pub record TransitionDescription : Type 0 where
  pub transition_id : ℕ
  pub transition_label : String
  pub start_state : LifecycleState
  pub goal_state : LifecycleState

-- What user code does: it returns a `TransitionCallbackReturn`, returns something else, or raises.
pub data Answer : Type 0 where
  returns : TransitionCallbackReturn → Answer
  returns_other : Answer
  raises : Answer

pub data Error : Type 0 where
  runtime_error type_error attribute_error rcl_error : Error

-- `ManagedEntity` itself, a `SimpleManagedEntity`, or a class of the user.
pub data EntityKind : Type 0 where
  plain simple user : EntityKind

pub record Entity : Type 0 where
  pub id : ℕ
  pub kind : EntityKind
  pub enabled : Bool

-- The state machine of the C library. A trigger gives the machine behind it, and whether it raised no `RCLError`.
pub record Rcl (S : Type 0) : Type 0 where
  pub initialized : S → Bool
  pub current_state : S → LifecycleState
  pub trigger_transition_by_id : ℕ → S → S × Bool
  pub trigger_transition_by_label : String → S → S × Bool
  pub get_transition_by_label : String → S → Option ℕ
  pub to_label : TransitionCallbackReturn → String
  pub available_states : S → List LifecycleState
  pub available_transitions : S → List TransitionDescription
  pub transition_graph : S → List TransitionDescription

-- The constants of `lifecycle_msgs`.
pub record Msgs : Type 0 where
  pub state_configuring : ℕ
  pub state_cleaningup : ℕ
  pub state_shuttingdown : ℕ
  pub state_activating : ℕ
  pub state_deactivating : ℕ
  pub state_errorprocessing : ℕ
  pub configure : ℕ
  pub cleanup : ℕ
  pub activate : ℕ
  pub deactivate : ℕ
  pub unconfigured_shutdown : ℕ
  pub inactive_shutdown : ℕ
  pub active_shutdown : ℕ

-- What the user's classes do: the callbacks of entities, and the callbacks of the node that a subclass overrides.
pub record UserCode : Type 0 where
  pub answer : ℕ → CallbackName → LifecycleState → Answer
  pub override : CallbackName → Option (LifecycleState → List Entity → Answer × List Entity)

-- The node: `_state_machine`, `_callbacks` with bound methods by their names, and `_managed_entities` in the order
-- in which the set gives them.
pub record LifecycleNode (S : Type 0) : Type 0 where
  pub state_machine : S
  pub callbacks : Dict ℕ CallbackName
  pub managed_entities : List Entity

is_success : TransitionCallbackReturn → Bool
is_success success = true
is_success _ = false

-- `SimpleManagedEntity.on_activate` and `on_deactivate`, and what it has from `ManagedEntity`.
simple_call : CallbackName → Entity → Entity
simple_call on_activate e = record e { enabled = true }
simple_call on_deactivate e = record e { enabled = false }
simple_call _ e = e

-- `cb(state)` for the callback of an entity.
call_entity_as : EntityKind → UserCode → CallbackName → LifecycleState → Entity → Answer × Entity
call_entity_as plain u name state e = (returns success, e)
call_entity_as simple u name state e = (returns success, simple_call name e)
call_entity_as user u name state e = (u.answer e.id name state, e)

unfoldable pub call_entity : UserCode → CallbackName → LifecycleState → Entity → Answer × Entity
unfolding call_entity_as simple_call
call_entity u name state e = call_entity_as e.kind u name state e

-- `__transition_callback_impl`, the loop over the managed entities.
unfoldable pub transition_callback_impl :
    UserCode → CallbackName → LifecycleState → List Entity → Answer × List Entity
unfolding call_entity
transition_callback_impl u name state [] = (returns success, [])
transition_callback_impl u name state (e ∷ es) =
    let rest = transition_callback_impl u name state es in
    elim (call_entity u name state e).0 [
      | raises ↦ (returns error, (call_entity u name state e).1 ∷ es)
      | returns_other ↦ (raises, (call_entity u name state e).1 ∷ es)
      | returns r ↦ elim r [
        | success ↦ (rest.0, (call_entity u name state e).1 ∷ rest.1)
        | failure ↦ (returns failure, (call_entity u name state e).1 ∷ es)
        | error ↦ (returns error, (call_entity u name state e).1 ∷ es)
      ]
    ]

-- A bound method `self.on_configure` and so on: the override, or the method of the mixin.
unfoldable pub call_on :
    UserCode → CallbackName → LifecycleState → List Entity → Answer × List Entity
unfolding transition_callback_impl
call_on u name state es = elim (u.override name) [
  | some f ↦ f state es
  | none ↦ transition_callback_impl u name state es
]

-- `SimpleManagedEntity.when_enabled`: what the wrapper runs, where `nothing` is a bare return.
unfoldable pub only_when_enabled_wrapper {ℓ} : {A : Type ℓ} → A → A → Option A → Entity → A
only_when_enabled_wrapper nothing wrapped when_not_enabled self =
    if not self.enabled then elim when_not_enabled [ none ↦ nothing | some f ↦ f ] else wrapped

-- A message of the publisher's type, bytes, or something else.
pub data Message (M : Type 0) : Type 0 where
  typed : M → Message M
  bytes : List ℕ → Message M
  other : Message M

-- `BasePublisher.publish`: what is handed to the C library.
unfoldable pub base_publish : {M : Type 0} → Message M → Result Error (Option (Message M))
base_publish (typed m) = ok (some (typed m))
base_publish (bytes b) = ok (some (bytes b))
base_publish other = err type_error

-- `LifecyclePublisher.publish`
unfoldable pub publish : {M : Type 0} → Message M → Entity → Result Error (Option (Message M))
unfolding only_when_enabled_wrapper base_publish
publish msg self = only_when_enabled_wrapper (ok none) (base_publish msg) none self

module _ {S : Type 0} where
  -- `add_managed_entity`, behind the type test, and what `create_lifecycle_publisher` does with the publisher.
  unfoldable pub add_managed_entity : Entity → LifecycleNode S → LifecycleNode S
  add_managed_entity e n =
      if any (λ (x : Entity). x.id == e.id) n.managed_entities
      then n
      else record n { managed_entities = n.managed_entities ++ e ∷ [] }

  -- What `destroy_lifecycle_publisher` does with it.
  unfoldable pub remove_managed_entity : ℕ → LifecycleNode S → LifecycleNode S
  remove_managed_entity id n = record n {
    managed_entities = keep (λ (x : Entity). not (x.id == id)) n.managed_entities;
  }

  -- `LifecycleNodeMixin.__init__`: the registered callbacks.
  unfoldable pub init : Msgs → S → LifecycleNode S
  init msgs machine = record {
    state_machine = machine;
    callbacks =
        Dict.set
          (Dict.set
            (Dict.set
              (Dict.set
                (Dict.set (Dict.set Dict.empty msgs.state_configuring on_configure)
                  msgs.state_cleaningup on_cleanup)
                msgs.state_shuttingdown on_shutdown)
              msgs.state_activating on_activate)
            msgs.state_deactivating on_deactivate)
          msgs.state_errorprocessing on_error;
    managed_entities = [];
  }

-- The `except Exception` of `__execute_callback`.
unfoldable pub caught : Answer → Answer
caught raises = returns error
caught (returns r) = returns r
caught returns_other = returns_other

module _ {S : Type 0} (rcl : Rcl S) (u : UserCode) where
  -- `__execute_callback`. Whatever the callback raises is an error; what it returns is passed on.
  unfoldable pub execute_callback : ℕ → LifecycleState → LifecycleNode S → Answer × LifecycleNode S
  unfolding call_on caught
  execute_callback current_state_id previous_state n =
      elim (Dict.get n.callbacks current_state_id) [
        | none ↦ (returns success, n)
        | some name ↦
            let called = call_on u name previous_state n.managed_entities in
            (caught called.0, record n { managed_entities = called.1 })
      ]

  -- `trigger_transition_by_label(code.to_label(), True)`: whether no `RCLError` came.
  unfoldable pub finish : TransitionCallbackReturn → LifecycleNode S → LifecycleNode S × Bool
  finish code n =
      let triggered = rcl.trigger_transition_by_label (rcl.to_label code) n.state_machine in
      (record n { state_machine = triggered.0 }, triggered.1)

  -- `__change_state` from the callback of the error processing on.
  unfoldable pub process_error :
      LifecycleState → LifecycleNode S → Result Error TransitionCallbackReturn × LifecycleNode S
  unfolding finish
  process_error previous_state n =
      let called = execute_callback (rcl.current_state n.state_machine).state_id previous_state n in
      elim called.0 [
        | returns error_code ↦ (ok error, (finish error_code called.1).0)
        | returns_other ↦ (err attribute_error, called.1)
        | raises ↦ (err attribute_error, called.1)
      ]

  -- `__change_state` behind the transition's callback.
  unfoldable pub complete :
      LifecycleState
      → Answer
      → LifecycleNode S
      → Result Error TransitionCallbackReturn × LifecycleNode S
  unfolding finish process_error
  complete previous_state (returns code) n =
      let completed = finish code n in
      if completed.1
      then elim code [
        | error ↦ process_error previous_state completed.0
        | success ↦ (ok success, completed.0)
        | failure ↦ (ok failure, completed.0)
      ]
      else (ok error, completed.0)
  complete previous_state _ n = (err attribute_error, n)

  -- `__change_state`
  unfoldable pub change_state :
      ℕ → LifecycleNode S → Result Error TransitionCallbackReturn × LifecycleNode S
  unfolding execute_callback complete
  change_state transition_id n =
      if not (rcl.initialized n.state_machine)
      then (err runtime_error, n)
      else let life_cycle_state = rcl.current_state n.state_machine in
        let triggered = rcl.trigger_transition_by_id transition_id n.state_machine in
        let started = record n { state_machine = triggered.0 } in
        let called =
          execute_callback (rcl.current_state triggered.0).state_id life_cycle_state started in
        if triggered.1 then complete life_cycle_state called.0 called.1 else (ok error, started)

  module _ (msgs : Msgs) where
    unfoldable pub trigger_configure :
        LifecycleNode S → Result Error TransitionCallbackReturn × LifecycleNode S
    trigger_configure = change_state msgs.configure

    unfoldable pub trigger_cleanup :
        LifecycleNode S → Result Error TransitionCallbackReturn × LifecycleNode S
    trigger_cleanup = change_state msgs.cleanup

    unfoldable pub trigger_activate :
        LifecycleNode S → Result Error TransitionCallbackReturn × LifecycleNode S
    trigger_activate = change_state msgs.activate

    unfoldable pub trigger_deactivate :
        LifecycleNode S → Result Error TransitionCallbackReturn × LifecycleNode S
    trigger_deactivate = change_state msgs.deactivate

    unfoldable pub trigger_shutdown :
        LifecycleNode S → Result Error TransitionCallbackReturn × LifecycleNode S
    trigger_shutdown n =
        let current_state = (rcl.current_state n.state_machine).label in
        if current_state =? "unconfigured"
        then change_state msgs.unconfigured_shutdown n
        else if current_state =? "inactive"
        then change_state msgs.inactive_shutdown n
        else if current_state =? "active"
        then change_state msgs.active_shutdown n
        else (err rcl_error, n)

  -- `__on_change_state`, for a request with an id and a label. What is ok is `resp.success`.
  unfoldable pub on_change_state :
      ℕ → String → LifecycleNode S → Result Error Bool × LifecycleNode S
  unfolding change_state is_success
  on_change_state id label n =
      if not (rcl.initialized n.state_machine)
      then (err runtime_error, n)
      else elim (if label =? ""
          then some id
          else rcl.get_transition_by_label label n.state_machine) [
            | none ↦ (ok false, n)
            | some transition_id ↦
                let changed = change_state transition_id n in
                (elim changed.0 [ ok code ↦ ok (is_success code) | err e ↦ err e ], changed.1)
          ]

  -- The services that only read the machine. Their loops copy the descriptions into messages.
  unfoldable pub on_get_state : LifecycleNode S → Result Error LifecycleState
  on_get_state n =
      if not (rcl.initialized n.state_machine)
      then err runtime_error
      else ok (rcl.current_state n.state_machine)

  unfoldable pub on_get_available_states : LifecycleNode S → Result Error (List LifecycleState)
  on_get_available_states n =
      if not (rcl.initialized n.state_machine)
      then err runtime_error
      else ok (rcl.available_states n.state_machine)

  unfoldable pub on_get_available_transitions :
      LifecycleNode S → Result Error (List TransitionDescription)
  on_get_available_transitions n =
      if not (rcl.initialized n.state_machine)
      then err runtime_error
      else ok (rcl.available_transitions n.state_machine)

  unfoldable pub on_get_transition_graph :
      LifecycleNode S → Result Error (List TransitionDescription)
  on_get_transition_graph n =
      if not (rcl.initialized n.state_machine)
      then err runtime_error
      else ok (rcl.transition_graph n.state_machine)
