-- ===== src/Executor/Handler/Jobs/Exclusion.antt =====
-- The handlers of one group (rclpy/rclpy/executors.py, `_make_handler`): who holds the group, the bookkeeping,
-- and waiting for the others.
use rclpy.Prelude.{
  ℕ, ◌≤◌, ◌≡◌, ◌↔◌, ◌⊎◌, inl, inr, Bool, true, false, Option, none, some, length, List, [], ◌∷◌,
  ◌++◌, All-split, ok, err, ◌==◌, nat_eq, arith, contains,
}
use rclpy.Dict
use rclpy.CallbackGroup.{CallbackGroup, exclusive, has_entity}
use rclpy.CallbackGroup.Laws.{Holds}
use rclpy.Executor.WorkTracker.{occurrences, other_work_drained}
use rclpy.Executor.WorkTracker.Drain.{drained_iff}
use rclpy.Executor.Handler.{invalid_handle, taken, begin_handler, end_handler}
use rclpy.Executor.Handler.Jobs.{accepted, calling, Job, System, Reach, here, next, holders, owners}
use rclpy.Executor.Handler.Jobs.Valid.{IsValid}
use rclpy.Executor.Handler.Jobs.Keeps.{Step-keeps, finish-ok, taken-ends, begin_handler-Started}

-- No handler was made, nothing holds the group, and no callback is counted.
pub record IsFresh (s : System) : Type 0 where
  pub group : Holds s.shared.group []
  pub queued : s.queued ≡ []
  pub jobs : s.jobs ≡ []
  pub counts : s.shared.work_tracker.executing_thread_counts ≡ Dict.empty

fresh-IsValid : (s : System) → IsFresh s → IsValid s
fresh-IsValid s f = record {
  held = rw f.jobs f.group;
  counts = record { at = λ t. rw (f.counts, f.jobs) (Dict.get-empty t) };
  members = rw f.queued tt;
}

Reach-keeps : {s t : System} → Reach s t → IsValid s → IsValid t
Reach-keeps here v = v
Reach-keeps (next r st) v = Step-keeps st (Reach-keeps r v)

pub Reach-fresh : (s t : System) → IsFresh s → Reach s t → IsValid t
Reach-fresh s t f r = Reach-keeps r (fresh-IsValid s f)

at_most_one :
    (jobs : List Job) (g : CallbackGroup) (es : List ℕ) (a : Option ℕ)
    → g ≡ exclusive es a
    → Holds g (holders jobs)
    → length jobs ≤ 1
at_most_one [] g es a e h = omega arith
at_most_one (x ∷ []) g es a e h = omega arith
at_most_one (x ∷ y ∷ jobs) g es none e h =
    let h' : x.entity ∷ y.entity ∷ holders jobs ≡ [] = rw e at h in cc
at_most_one (x ∷ y ∷ jobs) g es (some b) e h =
    let h' : x.entity ∷ y.entity ∷ holders jobs ≡ b ∷ [] = rw e at h in cc

-- From a fresh start, however the handlers of the entities interleave on the threads: while the group is
-- mutually exclusive, at most one handler was given the group and did not end its execution.
pub Reach-one :
    (s t : System) (es : List ℕ) (active : Option ℕ)
    → IsFresh s
    → Reach s t
    → t.shared.group ≡ exclusive es active
    → length t.jobs ≤ 1
Reach-one s t es active f r g =
    at_most_one t.jobs t.shared.group es active g (Reach-fresh s t f r).held

-- From a fresh start, however the handlers interleave, and also if the guard condition is destroyed at some
-- time: a handler that waits starts, and goes on once its entity's data are taken, and the only exception
-- that it can raise there is that of triggering a destroyed guard condition; a callback that ended leaves its
-- group and the work tracker without an exception. So no assertion on the group and no look-up of a thread
-- fails.
pub Reach-no_error :
    (s t : System)
    → IsFresh s
    → Reach s t
    → ((thread e : ℕ) (stop : Bool) (before after : List (ℕ × Bool))
        → t.queued ≡ before ++ (e, stop) ∷ after
        → ((begin_handler thread e stop t.shared).0 ≡ ok true)
          ⊎ ((begin_handler thread e stop t.shared).0 ≡ ok false)
          ⊎ ((t.shared.guard_destroyed ≡ true)
              × ((begin_handler thread e stop t.shared).0 ≡ err invalid_handle)))
      × ((thread e : ℕ) (before after : List Job)
          → t.jobs ≡ before ++ record { thread = thread; entity = e; phase = accepted } ∷ after
          → ((taken thread e t.shared).0 ≡ ok tt)
            ⊎ ((t.shared.guard_destroyed ≡ true)
                × ((taken thread e t.shared).0 ≡ err invalid_handle)))
      × ((thread e : ℕ) (before after : List Job)
          → t.jobs ≡ before ++ record { thread = thread; entity = e; phase = calling } ∷ after
          → (end_handler thread e t.shared).0 ≡ ok tt)
Reach-no_error s t f r =
    let v = Reach-fresh s t f r in
    (
      λ thread e stop before after q.
          let split =
            All-split (λ (p : ℕ × Bool). has_entity p.0 t.shared.group ≡ true) before (e, stop)
              after (rw q at v.members) in
          elim (begin_handler-Started thread e stop t.shared (holders t.jobs) (owners t.jobs)
            split.0 v.held v.counts).1 [ inl (o, _, _) ↦ inl o | inr (o, _, _) ↦ inr o ],
      λ thread e before after j. taken-ends thread e t before after v j,
      λ thread e before after j. (finish-ok thread e t before after v j).0,
    )

-- From a fresh start, however the handlers interleave: a thread that waits for the work of the others may
-- go on exactly if each thread that is inside a callback's context waits too.
pub Reach-drained :
    (s t : System)
    → IsFresh s
    → Reach s t
    → (other_work_drained t.shared.work_tracker ≡ true) ↔ (
        (thread : ℕ)
        → (occurrences thread (owners t.jobs) == 0) ≡ false
        → contains thread t.shared.work_tracker.waiting_threads ≡ true)
Reach-drained s t f r =
    drained_iff t.shared.work_tracker (owners t.jobs) (Reach-fresh s t f r).counts
