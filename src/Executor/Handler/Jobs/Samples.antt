-- ===== src/Executor/Handler/Jobs/Samples.antt =====
-- Two entities of an exclusive group on two threads.
use rclpy.Prelude.{
  ℕ, ◌≤◌, ◌≡◌, ◌↔◌, ◌⊎◌, refl, Bool, true, false, none, some, length, List, [], ◌∷◌, ◌++◌, ok, err,
  ◌==◌, nat_eq, contains,
}
use rclpy.Dict
use rclpy.CallbackGroup.{exclusive, has_entity, beginning_execution, can_execute}
use rclpy.Executor.WorkTracker.{
  WorkTracker, enter, exit, wait_exit, occurrences, other_work_drained,
}
use rclpy.Executor.WorkTracker.Drain.{wait_exit_keeps_drained}
use rclpy.Executor.Handler
use rclpy.Executor.Handler.{
  Shared, make_handler, begin_handler, leave, taken, take_raised, end_handler,
}
use rclpy.Executor.Handler.Jobs.{
  accepted, calling, lost, Job, System, make, begin, Reach, here, next, owners,
}
use rclpy.Executor.Handler.Jobs.Exclusion.{IsFresh, Reach-one, Reach-no_error, Reach-drained}
use rclpy.Executor.Handler.Jobs.Blocked.{take_raises_blocks}

abbrev idle : Shared
idle = record {
  group = exclusive (1 ∷ 2 ∷ []) none;
  executor_events = [];
  is_shutdown = false;
  work_tracker = record { executing_thread_counts = record { entries = [] }; waiting_threads = [] };
  triggers = 0;
  guard_destroyed = false;
}

abbrev start : System
start = record { shared = idle; queued = []; jobs = [] }

start-IsFresh : IsFresh start
unfolding Dict.empty
start-IsFresh = record { group = refl; queued = refl; jobs = refl; counts = refl }

-- Handlers for both entities, of which thread 8 starts the first.
abbrev ready : System
ready = record {
  shared = record idle { executor_events = 2 ∷ 1 ∷ [] };
  queued = (1, false) ∷ (2, false) ∷ [];
  jobs = [];
}

abbrev started : System
started = record {
  shared = record ready.shared {
    group = exclusive (1 ∷ 2 ∷ []) (some 1);
    work_tracker = record {
      executing_thread_counts = record { entries = (8, 1) ∷ [] };
      waiting_threads = [];
    };
  };
  queued = (2, false) ∷ [];
  jobs = record { thread = 8; entity = 1; phase = accepted } ∷ [];
}

start-started : Reach start started
unfolding make_handler begin_handler beginning_execution has_entity Handler.can_execute can_execute
    enter Dict.set Dict.get
start-started =
    next (next (next here (make start 1 refl refl)) (make _ 2 refl refl))
      (begin _ 8 1 false [] ((2, false) ∷ []) refl)

Reach-one_example : length started.jobs ≤ 1
Reach-one_example = Reach-one start started (1 ∷ 2 ∷ []) (some 1) start-IsFresh start-started refl

Reach-no_error_example :
    ((thread e : ℕ) (stop : Bool) (before after : List (ℕ × Bool))
      → started.queued ≡ before ++ (e, stop) ∷ after
      → ((begin_handler thread e stop started.shared).0 ≡ ok true)
        ⊎ ((begin_handler thread e stop started.shared).0 ≡ ok false)
        ⊎ ((started.shared.guard_destroyed ≡ true)
            × ((begin_handler thread e stop started.shared).0 ≡ err Handler.invalid_handle)))
    × ((thread e : ℕ) (before after : List Job)
        → started.jobs ≡ before ++ record { thread = thread; entity = e; phase = accepted } ∷ after
        → ((taken thread e started.shared).0 ≡ ok tt)
          ⊎ ((started.shared.guard_destroyed ≡ true)
              × ((taken thread e started.shared).0 ≡ err Handler.invalid_handle)))
    × ((thread e : ℕ) (before after : List Job)
        → started.jobs ≡ before ++ record { thread = thread; entity = e; phase = calling } ∷ after
        → (end_handler thread e started.shared).0 ≡ ok tt)
Reach-no_error_example = Reach-no_error start started start-IsFresh start-started

Reach-drained_example : (other_work_drained started.shared.work_tracker ≡ true) ↔ (
    (thread : ℕ)
    → (occurrences thread (owners started.jobs) == 0) ≡ false
    → contains thread started.shared.work_tracker.waiting_threads ≡ true)
Reach-drained_example = Reach-drained start started start-IsFresh start-started

-- Entity 2 waits for good.
take_raises_blocks_example : can_execute 2 (exclusive (1 ∷ 2 ∷ []) (some 1)) ≡ ok false
unfolding take_raised leave exit Dict.get Dict.del has_entity
take_raises_blocks_example =
    take_raises_blocks start started
      (record started {
        shared = record started.shared {
          work_tracker = record {
            executing_thread_counts = record { entries = [] };
            waiting_threads = [];
          };
        };
        jobs = record { thread = 8; entity = 1; phase = lost } ∷ [];
      })
      8 1 (1 ∷ 2 ∷ []) (some 1) [] [] start-IsFresh start-started refl refl here 2 refl

-- Two threads, both inside a callback and both waiting.
abbrev both : WorkTracker
both = record {
  executing_thread_counts = record { entries = (7, 1) ∷ (8, 1) ∷ [] };
  waiting_threads = 8 ∷ 7 ∷ [];
}

both_drained : other_work_drained both ≡ true
unfolding other_work_drained Dict.keys
both_drained = refl

wait_exit_keeps_drained_example : other_work_drained (wait_exit 8 true true both) ≡ true
wait_exit_keeps_drained_example = wait_exit_keeps_drained both 8 true both_drained
