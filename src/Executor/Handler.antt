-- ===== src/Executor/Handler.antt =====
-- The handlers that `_make_handler` makes for ready entities of one callback group, from the moment they
-- are made until their callbacks have ended. What takes the entity's data is code of the entity: it raises,
-- finds nothing, or finds work for a callback.
pub mod Jobs
use rclpy.Prelude.{
  ℕ, suc, Bool, true, false, not, ◌&&◌, List, [], ◌∷◌, Result, ok, err, if◌then◌else◌, ◌==◌, keep,
  contains,
}
use rclpy.CallbackGroup
use rclpy.CallbackGroup.{CallbackGroup, beginning_execution, ending_execution}
use rclpy.Executor.WorkTracker
use rclpy.Executor.WorkTracker.{WorkTracker}

-- What the threads share.
pub record Shared : Type 0 where
  pub group : CallbackGroup
  pub executor_events : List ℕ  -- the entities whose `_executor_event` is set
  pub is_shutdown : Bool
  pub work_tracker : WorkTracker
  pub triggers : ℕ  -- how often the guard condition was triggered
  pub guard_destroyed : Bool

pub data Error : Type 0 where
  assertion_error key_error invalid_handle : Error

abbrev pub clear : ℕ → List ℕ → List ℕ
clear e = keep (λ f. not (f == e))

-- `Executor.can_execute`
unfoldable pub can_execute : ℕ → Shared → Result CallbackGroup.Error Bool
can_execute e s =
    if not (contains e s.executor_events) then CallbackGroup.can_execute e s.group else ok false

-- `_make_handler`; the handler keeps whether the executor was shut down.
unfoldable pub make_handler : ℕ → Shared → Bool × Shared
make_handler e s = (
  s.is_shutdown,
  record s {
    executor_events =
        if contains e s.executor_events then s.executor_events else e ∷ s.executor_events;
  },
)

-- `gc.trigger()`
unfoldable pub trigger : Shared → Result Error (Unit {0}) × Shared
trigger s =
    if s.guard_destroyed
    then (err invalid_handle, s)
    else (ok tt, record s { triggers = suc s.triggers })

-- The end of a handler that does not go on.
unfoldable pub refuse : ℕ → CallbackGroup → Shared → Result Error Bool × Shared
unfolding trigger
refuse e g s =
    let (r, s') = trigger (record s { group = g; executor_events = clear e s.executor_events }) in
    (elim r [ err x ↦ err x | ok _ ↦ ok false ], s')

-- The first test of the handler, and entering the work tracker: whether the handler goes on.
unfoldable pub begin_handler : ℕ → ℕ → Bool → Shared → Result Error Bool × Shared
unfolding refuse
begin_handler thread e is_shutdown s =
    if is_shutdown
    then refuse e s.group s
    else let (r, g) = beginning_execution e s.group in
      elim r [
        | err _ ↦ (err assertion_error, record s { group = g })
        | ok false ↦ refuse e g s
        | ok true ↦ (
          ok true,
          record s { group = g; work_tracker = WorkTracker.enter thread s.work_tracker },
        )
      ]

-- Leaving the work tracker, with what was raised in it.
unfoldable pub leave : ℕ → Result Error (Unit {0}) → Shared → Result Error (Unit {0}) × Shared
leave owner r s = elim (WorkTracker.exit owner s.work_tracker) [
  | err _ ↦ (err key_error, s)
  | ok w ↦ (r, record s { work_tracker = w })
]

-- `take_from_wait_list` returned. Where the guard condition is gone, the handler leaves before the `try`.
unfoldable pub taken : ℕ → ℕ → Shared → Result Error (Unit {0}) × Shared
unfolding trigger leave
taken owner e s =
    let (r, s') = trigger (record s { executor_events = clear e s.executor_events }) in
    elim r [ err x ↦ leave owner (err x) s' | ok _ ↦ (ok tt, s') ]

-- `take_from_wait_list` raised, before the `try`.
unfoldable pub take_raised : ℕ → Shared → Result Error (Unit {0}) × Shared
take_raised owner s = leave owner (ok tt) s

-- The `finally`, when the callback returned, raised, or was not there. What the trigger raises is caught.
unfoldable pub end_handler : ℕ → ℕ → Shared → Result Error (Unit {0}) × Shared
unfolding trigger leave
end_handler owner e s =
    let (r, g) = ending_execution e s.group in
    elim r [
      | err _ ↦ leave owner (err assertion_error) (record s { group = g })
      | ok _ ↦ leave owner (ok tt) (trigger (record s { group = g })).1
    ]
