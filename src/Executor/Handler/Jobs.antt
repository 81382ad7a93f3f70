-- ===== src/Executor/Handler/Jobs.antt =====
-- The handlers of one group's entities as they interleave on the threads of an executor.
pub mod Valid
pub mod Exclusion
pub mod Keeps
pub mod Blocked
mod Samples
use rclpy.Prelude.{ℕ, ◌≡◌, Bool, true, false, List, [], ◌∷◌, ◌++◌, map, Result, ok, err}
use rclpy.CallbackGroup
use rclpy.CallbackGroup.{has_entity, add_entity}
use rclpy.Executor.WorkTracker.{wait_enter, wait_exit}
use rclpy.Executor.Handler.{
  Shared, Error, can_execute, make_handler, begin_handler, taken, take_raised, end_handler,
}

-- Where a handler is that was given the group: before the data are taken, at the callback, or gone, after
-- taking the data or triggering the guard condition raised.
pub data Phase : Type 0 where
  accepted calling lost : Phase

pub record Job : Type 0 where
  pub thread : ℕ
  pub entity : ℕ
  pub phase : Phase

pub record System : Type 0 where
  pub shared : Shared
  pub queued : List (ℕ × Bool)  -- handlers that did not start yet
  pub jobs : List Job  -- handlers that were given the group, and did not end the execution

abbrev pub admitted : ℕ → ℕ → Result Error Bool → List Job → List Job
admitted thread e (ok true) jobs =
    jobs ++ record { thread = thread; entity = e; phase = accepted } ∷ []
admitted _ _ _ jobs = jobs

-- The group of the entities, the executor and the threads, one step further.
pub data Step : System → System → Type 0 where
  -- an entity is added to the group
  add :
      (s : System) (e : ℕ)
      → Step s (record s { shared = record s.shared { group = add_entity e s.shared.group } })
  -- an entity of the group that may execute is ready, and gets a handler
  make :
      (s : System) (e : ℕ)
      → has_entity e s.shared.group ≡ true
      → can_execute e s.shared ≡ ok true
      → Step s (record s {
        shared = (make_handler e s.shared).1;
        queued = s.queued ++ (e, (make_handler e s.shared).0) ∷ [];
      })
  -- a thread starts a handler
  begin :
      (s : System) (thread e : ℕ) (is_shutdown : Bool) (before after : List (ℕ × Bool))
      → s.queued ≡ before ++ (e, is_shutdown) ∷ after
      → Step s (record {
        shared = (begin_handler thread e is_shutdown s.shared).1;
        queued = before ++ after;
        jobs = admitted thread e (begin_handler thread e is_shutdown s.shared).0 s.jobs;
      })
  take :
      (s : System) (thread e : ℕ) (before after : List Job)
      → s.jobs ≡ before ++ record { thread = thread; entity = e; phase = accepted } ∷ after
      → s.shared.guard_destroyed ≡ false
      → Step s (record s {
        shared = (taken thread e s.shared).1;
        jobs = before ++ record { thread = thread; entity = e; phase = calling } ∷ after;
      })
  -- the data are taken, and the guard condition is gone
  take_stops :
      (s : System) (thread e : ℕ) (before after : List Job)
      → s.jobs ≡ before ++ record { thread = thread; entity = e; phase = accepted } ∷ after
      → s.shared.guard_destroyed ≡ true
      → Step s (record s {
        shared = (taken thread e s.shared).1;
        jobs = before ++ record { thread = thread; entity = e; phase = lost } ∷ after;
      })
  take_raises :
      (s : System) (thread e : ℕ) (before after : List Job)
      → s.jobs ≡ before ++ record { thread = thread; entity = e; phase = accepted } ∷ after
      → Step s (record s {
        shared = (take_raised thread s.shared).1;
        jobs = before ++ record { thread = thread; entity = e; phase = lost } ∷ after;
      })
  -- the callback returned or raised
  finish :
      (s : System) (thread e : ℕ) (before after : List Job)
      → s.jobs ≡ before ++ record { thread = thread; entity = e; phase = calling } ∷ after
      → Step s (record s { shared = (end_handler thread e s.shared).1; jobs = before ++ after })
  destroy_guard :
      (s : System) → Step s (record s { shared = record s.shared { guard_destroyed = true } })
  shut_down : (s : System) → Step s (record s { shared = record s.shared { is_shutdown = true } })
  -- a thread begins to wait for the others' work, and ends waiting
  wait :
      (s : System) (thread : ℕ)
      → Step s (record s {
        shared = record s.shared { work_tracker = (wait_enter thread s.shared.work_tracker).1 };
      })
  wait_ends :
      (s : System) (thread : ℕ) (added drained : Bool)
      → Step s (record s {
        shared = record s.shared {
          work_tracker = wait_exit thread added drained s.shared.work_tracker;
        };
      })

pub data Reach (s : System) : System → Type 0 where
  here : Reach s s
  next : {t u : System} → Reach s t → Step t u → Reach s u

-- The entities that hold the group, and the threads that are inside a callback's context.
abbrev pub holders : List Job → List ℕ
holders = map (λ j. j.entity)

abbrev pub owned : Phase → ℕ → List ℕ → List ℕ
owned lost t ts = ts
owned _ t ts = t ∷ ts

abbrev pub owners : List Job → List ℕ
owners [] = []
owners (j ∷ js) = owned j.phase j.thread (owners js)
