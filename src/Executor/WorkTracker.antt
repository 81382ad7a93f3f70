-- ===== src/Executor/WorkTracker.antt =====
-- The class `_WorkTracker`: how many callbacks each thread is in, and which threads wait for the others.
-- A thread is a number; the part of `wait` before its `wait_for` and the part behind it are two operations.
pub mod Drain
use rclpy.Prelude.{
  ℕ, zero, suc, ◌+◌, ◌-◌, ◌≡◌, ◌≢◌, ◌↔◌, ◌⊎◌, inl, inr, refl, sym, ap, ◌∙◌, Bool, true, false, not,
  ◌&&◌, ◌||◌, Option, none, some, List, [], ◌∷◌, ◌++◌, Result, ok, err, if◌then◌else◌, ◌==◌, ◌=?◌,
  nat_eq, any, all, keep, Bool-cases, Option-cases, ==-eq, arith, contains,
}
use rclpy.Dict
use rclpy.Dict.{Dict, is_some}

pub record WorkTracker : Type 0 where
  pub executing_thread_counts : Dict ℕ ℕ
  pub waiting_threads : List ℕ

pub data Error : Type 0 where
  key_error : Error

abbrev or_zero : Option ℕ → ℕ
or_zero none = 0
or_zero (some n) = n

abbrev pub discard : ℕ → List ℕ → List ℕ
discard t = keep (λ u. not (u == t))

-- `track_callback` up to its `yield`
unfoldable pub enter : ℕ → WorkTracker → WorkTracker
enter owner w = record w {
  executing_thread_counts =
      Dict.set w.executing_thread_counts owner
        (or_zero (Dict.get w.executing_thread_counts owner) + 1);
}

-- `track_callback` behind its `yield`
unfoldable pub exit : ℕ → WorkTracker → Result Error WorkTracker
exit owner w = elim (Dict.get w.executing_thread_counts owner) [
  | none ↦ err key_error
  | some n ↦
      if (n - 1) == 0
      then ok (record {
        executing_thread_counts = Dict.del w.executing_thread_counts owner;
        waiting_threads = discard owner w.waiting_threads;
      })
      else ok
          (record w { executing_thread_counts = Dict.set w.executing_thread_counts owner (n - 1) })
]

unfoldable pub other_work_drained : WorkTracker → Bool
other_work_drained w = all (λ t. contains t w.waiting_threads) (Dict.keys w.executing_thread_counts)

-- Whether the thread was added, and the tracker with it.
unfoldable pub wait_enter : ℕ → WorkTracker → Bool × WorkTracker
wait_enter current w =
    if contains current w.waiting_threads
    then (false, w)
    else (true, record w { waiting_threads = current ∷ w.waiting_threads })

-- The `finally` of `wait`.
unfoldable pub wait_exit : ℕ → Bool → Bool → WorkTracker → WorkTracker
wait_exit current added_self drained w =
    if added_self && (not drained || not (is_some (Dict.get w.executing_thread_counts current)))
    then record w { waiting_threads = discard current w.waiting_threads }
    else w

-- How often a thread occurs.
abbrev pub occurrences : ℕ → List ℕ → ℕ
occurrences t [] = 0
occurrences t (u ∷ us) = if u == t then suc (occurrences t us) else occurrences t us

abbrev pub depth : ℕ → Option ℕ
depth zero = none
depth (suc n) = some (suc n)

-- The tracker counts the callbacks that are open, given by their owners.
pub record Counts (w : WorkTracker) (owners : List ℕ) : Type 0 where
  pub at : (t : ℕ) → Dict.get w.executing_thread_counts t ≡ depth (occurrences t owners)
