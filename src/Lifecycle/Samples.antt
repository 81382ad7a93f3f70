-- ===== src/Lifecycle/Samples.antt =====
-- A state machine with the states of the C library but for cleaning up and shutting down, and a node with two
-- publishers and an entity of the user's between them.
use rclpy.Prelude.{
  ℕ, ◌≡◌, ◌⊎◌, refl, Bool, true, false, none, some, String, List, [], ◌∷◌, ◌++◌, All, map, ok,
  if◌then◌else◌, ◌==◌, ◌=?◌, string_eq, nat_eq, arith,
}
use rclpy.Dict
use rclpy.Lifecycle.{
  TransitionCallbackReturn, success, failure, error, on_activate, on_deactivate, LifecycleState,
  Answer, returns, raises, Entity, simple, user, UserCode, Rcl, Msgs, LifecycleNode, init,
  transition_callback_impl, change_state, publish, base_publish, Message, typed, on_change_state,
  trigger_shutdown,
}
use rclpy.Lifecycle.Entities.{
  Succeeds, Stops, verdict, answer_of, called, transition_callback_impl-cases,
}
use rclpy.Lifecycle.Gates.{state_behind, change_state_gates}
use rclpy.Lifecycle.Machine.{IsTyped, Laws, change_state-Primary}

data Machine : Type 0 where
  unconfigured inactive active finalized configuring activating deactivating errorprocessing :
      Machine

abbrev state_of : Machine → LifecycleState
state_of unconfigured = record { label = "unconfigured"; state_id = 1 }
state_of inactive = record { label = "inactive"; state_id = 2 }
state_of active = record { label = "active"; state_id = 3 }
state_of finalized = record { label = "finalized"; state_id = 4 }
state_of configuring = record { label = "configuring"; state_id = 10 }
state_of activating = record { label = "activating"; state_id = 13 }
state_of deactivating = record { label = "deactivating"; state_id = 14 }
state_of errorprocessing = record { label = "errorprocessing"; state_id = 15 }

abbrev begin_transition : ℕ → Machine → Machine × Bool
begin_transition id unconfigured = if id == 1 then (configuring, true) else (unconfigured, false)
begin_transition id inactive = if id == 3 then (activating, true) else (inactive, false)
begin_transition id active = if id == 4 then (deactivating, true) else (active, false)
begin_transition id s = (s, false)

abbrev label_of : TransitionCallbackReturn → String
label_of success = "transition_success"
label_of failure = "transition_failure"
label_of error = "transition_error"

abbrev next_state : TransitionCallbackReturn → Machine → Machine × Bool
next_state success configuring = (inactive, true)
next_state success activating = (active, true)
next_state success deactivating = (inactive, true)
next_state success errorprocessing = (unconfigured, true)
next_state failure configuring = (unconfigured, true)
next_state failure activating = (inactive, true)
next_state failure deactivating = (active, true)
next_state _ errorprocessing = (finalized, true)
next_state error configuring = (errorprocessing, true)
next_state error activating = (errorprocessing, true)
next_state error deactivating = (errorprocessing, true)
next_state _ s = (s, false)

abbrev by_label : String → Machine → Machine × Bool
by_label label s =
    if label =? "transition_success"
    then next_state success s
    else if label =? "transition_failure"
    then next_state failure s
    else if label =? "transition_error"
    then next_state error s
    else (s, false)

abbrev rcl : Rcl Machine
rcl = record {
  initialized = λ _. true;
  current_state = state_of;
  trigger_transition_by_id = begin_transition;
  trigger_transition_by_label = by_label;
  get_transition_by_label = λ label _. if label =? "activate" then some 3 else none;
  to_label = label_of;
  available_states = λ _. [];
  available_transitions = λ _. [];
  transition_graph = λ _. [];
}

abbrev msgs : Msgs
msgs = record {
  state_configuring = 10;
  state_cleaningup = 11;
  state_shuttingdown = 12;
  state_activating = 13;
  state_deactivating = 14;
  state_errorprocessing = 15;
  configure = 1;
  cleanup = 2;
  activate = 3;
  deactivate = 4;
  unconfigured_shutdown = 5;
  inactive_shutdown = 6;
  active_shutdown = 7;
}

abbrev Primary : Machine → Type 0
Primary unconfigured = Unit
Primary inactive = Unit
Primary active = Unit
Primary finalized = Unit
Primary _ = ⊥

abbrev Busy : Machine → Type 0
Busy configuring = Unit
Busy activating = Unit
Busy deactivating = Unit
Busy _ = ⊥

abbrev Processing : Machine → Type 0
Processing errorprocessing = Unit
Processing _ = ⊥

-- The user's entity returns `answer` from every callback.
abbrev code : Answer → UserCode
code answer = record { answer = λ _ _ _. answer; override = λ _. none }

abbrev publisher : ℕ → Entity
publisher id = record { id = id; kind = simple; enabled = false }

abbrev own : Entity
own = record { id = 7; kind = user; enabled = false }

abbrev node : LifecycleNode Machine
node = record {
  state_machine = inactive;
  callbacks = (init msgs inactive).callbacks;
  managed_entities = publisher 1 ∷ own ∷ publisher 2 ∷ [];
}

-- A failed activation: the machine is inactive again, and the publisher in front of the failing entity is enabled.
half_active : change_state rcl (code (returns failure)) 3 node ≡ (
  ok failure,
  record node {
    managed_entities = record (publisher 1) { enabled = true } ∷ own ∷ publisher 2 ∷ [];
  },
)
unfolding change_state init Dict.get Dict.set Dict.empty
half_active = refl

-- Shutting down is asked for by the label of the state, and this machine refuses it.
shutdown_refused : trigger_shutdown rcl (code raises) msgs node ≡ (ok error, node)
unfolding trigger_shutdown change_state
shutdown_refused = refl

-- A request by a label that the machine does not know.
label_unknown : on_change_state rcl (code raises) 1 "fly" node ≡ (ok false, node)
unfolding on_change_state
label_unknown = refl

-- An error of the user's entity is processed, and leaves the machine unconfigured.
processed : (change_state rcl (code raises) 3 node).1.state_machine ≡ finalized
unfolding change_state init Dict.get Dict.set Dict.empty
processed = refl

rcl_laws : Laws rcl Primary Busy Processing
rcl_laws = record {
  refused = refused;
  started = started;
  completed = completed;
  succeeded = succeeded;
  failed = failed;
  erred = erred;
  processed = processed_primary;
}
  where
    refused :
        (id : ℕ) (s : Machine)
        → Primary s
        → (begin_transition id s).1 ≡ false
        → Primary (begin_transition id s).0
    refused id unconfigured p h = ground arith
    refused id inactive p h = ground arith
    refused id active p h = ground arith
    refused id finalized p h = tt
    refused id configuring p h = elim p [ ]
    refused id activating p h = elim p [ ]
    refused id deactivating p h = elim p [ ]
    refused id errorprocessing p h = elim p [ ]

    started :
        (id : ℕ) (s : Machine)
        → Primary s
        → (begin_transition id s).1 ≡ true
        → Busy (begin_transition id s).0
    started id unconfigured p h = ground arith
    started id inactive p h = ground arith
    started id active p h = ground arith
    started id finalized p h = cc
    started id configuring p h = elim p [ ]
    started id activating p h = elim p [ ]
    started id deactivating p h = elim p [ ]
    started id errorprocessing p h = elim p [ ]

    completed :
        (r : TransitionCallbackReturn) (s : Machine) → Busy s → (by_label (label_of r) s).1 ≡ true
    completed success configuring b = refl
    completed success activating b = refl
    completed success deactivating b = refl
    completed failure configuring b = refl
    completed failure activating b = refl
    completed failure deactivating b = refl
    completed error configuring b = refl
    completed error activating b = refl
    completed error deactivating b = refl
    completed success unconfigured b = elim b [ ]
    completed success inactive b = elim b [ ]
    completed success active b = elim b [ ]
    completed success finalized b = elim b [ ]
    completed success errorprocessing b = elim b [ ]
    completed failure unconfigured b = elim b [ ]
    completed failure inactive b = elim b [ ]
    completed failure active b = elim b [ ]
    completed failure finalized b = elim b [ ]
    completed failure errorprocessing b = elim b [ ]
    completed error unconfigured b = elim b [ ]
    completed error inactive b = elim b [ ]
    completed error active b = elim b [ ]
    completed error finalized b = elim b [ ]
    completed error errorprocessing b = elim b [ ]

    succeeded : (s : Machine) → Busy s → Primary (by_label (label_of success) s).0
    succeeded configuring b = tt
    succeeded activating b = tt
    succeeded deactivating b = tt
    succeeded unconfigured b = elim b [ ]
    succeeded inactive b = elim b [ ]
    succeeded active b = elim b [ ]
    succeeded finalized b = elim b [ ]
    succeeded errorprocessing b = elim b [ ]

    failed : (s : Machine) → Busy s → Primary (by_label (label_of failure) s).0
    failed configuring b = tt
    failed activating b = tt
    failed deactivating b = tt
    failed unconfigured b = elim b [ ]
    failed inactive b = elim b [ ]
    failed active b = elim b [ ]
    failed finalized b = elim b [ ]
    failed errorprocessing b = elim b [ ]

    erred : (s : Machine) → Busy s → Processing (by_label (label_of error) s).0
    erred configuring b = tt
    erred activating b = tt
    erred deactivating b = tt
    erred unconfigured b = elim b [ ]
    erred inactive b = elim b [ ]
    erred active b = elim b [ ]
    erred finalized b = elim b [ ]
    erred errorprocessing b = elim b [ ]

    processed_primary :
        (r : TransitionCallbackReturn) (s : Machine)
        → Processing s
        → Primary (by_label (label_of r) s).0
    processed_primary success errorprocessing p = tt
    processed_primary failure errorprocessing p = tt
    processed_primary error errorprocessing p = tt
    processed_primary success unconfigured p = elim p [ ]
    processed_primary success inactive p = elim p [ ]
    processed_primary success active p = elim p [ ]
    processed_primary success finalized p = elim p [ ]
    processed_primary success configuring p = elim p [ ]
    processed_primary success activating p = elim p [ ]
    processed_primary success deactivating p = elim p [ ]
    processed_primary failure unconfigured p = elim p [ ]
    processed_primary failure inactive p = elim p [ ]
    processed_primary failure active p = elim p [ ]
    processed_primary failure finalized p = elim p [ ]
    processed_primary failure configuring p = elim p [ ]
    processed_primary failure activating p = elim p [ ]
    processed_primary failure deactivating p = elim p [ ]
    processed_primary error unconfigured p = elim p [ ]
    processed_primary error inactive p = elim p [ ]
    processed_primary error active p = elim p [ ]
    processed_primary error finalized p = elim p [ ]
    processed_primary error configuring p = elim p [ ]
    processed_primary error activating p = elim p [ ]
    processed_primary error deactivating p = elim p [ ]

code-IsTyped : (a : Answer) → IsTyped (code a)
code-IsTyped a = record { overrides = λ name f e. absurd (none-ne-some f e) }
  where
    none-ne-some : (f : LifecycleState → List Entity → Answer × List Entity) → none ≡ some f → ⊥
    none-ne-some f e = cc

transition_callback_impl-cases_example :
    let u = code raises in
    let state = state_of inactive in
    let es = publisher 1 ∷ own ∷ publisher 2 ∷ [] in
    let run = transition_callback_impl u on_activate state es in
    (All (Succeeds u on_activate state) es
      × (run ≡ (returns success, map (called u on_activate state) es)))
    ⊎ ((front : List Entity) × (e : Entity) × (back : List Entity) × (es ≡ front ++ e ∷ back)
        × All (Succeeds u on_activate state) front
        × Stops u on_activate state e
        × (run ≡ (
          verdict (answer_of u on_activate state e),
          map (called u on_activate state) front ++ called u on_activate state e ∷ back,
        )))
transition_callback_impl-cases_example =
    transition_callback_impl-cases (code raises) on_activate (state_of inactive)
      (publisher 1 ∷ own ∷ publisher 2 ∷ [])

change_state-Primary_example :
    ((r : TransitionCallbackReturn) × ((change_state rcl (code raises) 3 node).0 ≡ ok r))
    × Primary (change_state rcl (code raises) 3 node).1.state_machine
    × ((begin_transition 3 inactive).1 ≡ false
        → ((change_state rcl (code raises) 3 node).0 ≡ ok error)
          × ((change_state rcl (code raises) 3 node).1.managed_entities ≡ node.managed_entities))
change_state-Primary_example =
    change_state-Primary (code raises) (code-IsTyped raises) rcl Primary Busy Processing rcl_laws 3
      node refl tt

abbrev hello : Message String
hello = typed "hello"

activated : (change_state rcl (code (returns success)) 3 node).0 ≡ ok success
unfolding change_state init Dict.get Dict.set Dict.empty
activated = refl

change_state_gates_example :
    let u = code (returns success) in
    (Dict.get node.callbacks (state_behind rcl 3 node) ≡ some on_activate
      → u.override on_activate ≡ none
      → All
          (λ (e : Entity). e.kind ≡ simple → publish hello e ≡ base_publish hello)
          (change_state rcl u 3 node).1.managed_entities)
    × (Dict.get node.callbacks (state_behind rcl 3 node) ≡ some on_deactivate
        → u.override on_deactivate ≡ none
        → All
            (λ (e : Entity). e.kind ≡ simple → publish hello e ≡ ok none)
            (change_state rcl u 3 node).1.managed_entities)
change_state_gates_example = change_state_gates rcl (code (returns success)) 3 node hello activated
