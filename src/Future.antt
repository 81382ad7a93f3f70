-- ===== src/Future.antt =====
-- rclpy/rclpy/task.py, class Future: its states, its result, and the callbacks and tasks that wait for it.
-- `V` is the type of results, `E` that of exceptions. A callback, a task and an executor are numbers; what a
-- method does to the executor or by calling a callback is given as a list of effects.
pub mod Dispatch
pub mod Waiting
mod Samples
use rclpy.Prelude.{
  ℕ, Bool, true, false, not, ◌&&◌, Option, none, some, List, [], ◌∷◌, ◌++◌, map, any, Result, ok,
  err, if◌then◌else◌, ◌==◌,
}

pub data FutureState : Type 0 where
  pending cancelled finished : FutureState

-- What waits for a future.
pub data Waiter : Type 0 where
  callback : ℕ → Waiter
  task : ℕ → Waiter

-- `executor.create_task(callback, self)`, `executor._call_task_in_next_spin(task)`, `callback(self)`, and
-- the warning for a task that no executor can resume.
pub data Effect : Type 0 where
  create_task : ℕ → Effect
  call_task_in_next_spin : ℕ → Effect
  invoke : ℕ → Effect
  drop_task : ℕ → Effect

pub record Future (V E : Type 0) : Type 0 where
  pub state : FutureState
  pub result : Option V
  pub exception : Option E
  pub exception_fetched : Bool
  pub callbacks : List Waiter
  -- `none` where there is no executor, or it is gone
  pub executor : Option ℕ

abbrev pub waiter_eq : Waiter → Waiter → Bool
waiter_eq (callback c) (callback d) = c == d
waiter_eq (task t) (task u) = t == u
waiter_eq _ _ = false

-- `c in callbacks`
abbrev pub is_in : Waiter → List Waiter → Bool
is_in w = any (λ x. waiter_eq x w)

-- One round of the loop over the callbacks.
abbrev pub dispatch : Option ℕ → Waiter → Effect
dispatch (some _) (callback c) = create_task c
dispatch (some _) (task t) = call_task_in_next_spin t
dispatch none (callback c) = invoke c
dispatch none (task t) = drop_task t

-- `callbacks.remove(callback)`, if it is there
unfoldable pub remove_first : Waiter → List Waiter → Option (List Waiter)
remove_first w [] = none
remove_first w (x ∷ xs) =
    let rest = remove_first w xs in
    if waiter_eq x w then some xs else elim rest [ none ↦ none | some xs' ↦ some (x ∷ xs') ]

module _ {V E : Type 0} where
  unfoldable pub new : Option ℕ → Future V E
  new executor = record {
    state = pending;
    result = none;
    exception = none;
    exception_fetched = false;
    callbacks = [];
    executor = executor;
  }

  abbrev pub is_pending : Future V E → Bool
  is_pending f = elim f.state [ pending ↦ true | _ ↦ false ]

  unfoldable pub is_cancelled : Future V E → Bool
  is_cancelled f = elim f.state [ cancelled ↦ true | _ ↦ false ]

  unfoldable pub is_done : Future V E → Bool
  is_done f = elim f.state [ finished ↦ true | _ ↦ false ]

  unfoldable pub schedule_or_invoke_done_callbacks : Future V E → Future V E × List Effect
  schedule_or_invoke_done_callbacks f =
      (record f { callbacks = [] }, map (dispatch f.executor) f.callbacks)

  unfoldable pub cancel : Future V E → Future V E × List Effect
  cancel f =
      if not (is_pending f)
      then (f, [])
      else schedule_or_invoke_done_callbacks (record f { state = cancelled })

  unfoldable pub set_result : V → Future V E → Future V E × List Effect
  set_result v f =
      schedule_or_invoke_done_callbacks (record f { result = some v; state = finished })

  unfoldable pub set_exception : E → Future V E → Future V E × List Effect
  set_exception e f =
      schedule_or_invoke_done_callbacks
        (record f { exception = some e; exception_fetched = false; state = finished })

  unfoldable pub fetch_exception : Future V E → Option E × Future V E
  fetch_exception f = (f.exception, record f { exception_fetched = true })

  unfoldable pub get_result : Future V E → Result E (Option V) × Future V E
  get_result f =
      let (exception, f') = fetch_exception f in
      (elim exception [ some e ↦ err e | none ↦ ok f'.result ], f')

  unfoldable pub set_executor : Option ℕ → Future V E → Future V E
  set_executor executor f = record f { executor = executor }

  unfoldable pub add_done_callback : ℕ → Bool → Future V E → Future V E × List Effect
  add_done_callback c unique f =
      if unique && is_in (callback c) f.callbacks
      then (f, [])
      else if not (is_pending f)
      then (f, dispatch f.executor (callback c) ∷ [])
      else (record f { callbacks = f.callbacks ++ callback c ∷ [] }, [])

  unfoldable pub add_waiting_task : ℕ → Future V E → Future V E × List Effect
  add_waiting_task t f =
      if not (is_pending f)
      then (f, dispatch f.executor (task t) ∷ [])
      else (record f { callbacks = f.callbacks ++ task t ∷ [] }, [])

  unfoldable pub remove_done_callback : ℕ → Future V E → Bool × Future V E
  remove_done_callback c f = elim (remove_first (callback c) f.callbacks) [
    | none ↦ (false, f)
    | some rest ↦ (true, record f { callbacks = rest })
  ]

  -- `__await__` up to its `yield`: whether it suspends; and behind it, where `none` is the error of a
  -- future that is still pending.
  unfoldable pub await_suspends : Future V E → Bool
  await_suspends f = is_pending f

  unfoldable pub await_resume : Future V E → Option (Result E (Option V)) × Future V E
  await_resume f = if is_pending f then (none, f) else let (r, f') = get_result f in (some r, f')
