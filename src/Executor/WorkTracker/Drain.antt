-- ===== src/Executor/WorkTracker/Drain.antt =====
-- The counts of `_WorkTracker` (rclpy/rclpy/executors.py) and the condition that a waiting thread waits for.
use rclpy.Prelude.{
  ℕ, zero, suc, ◌+◌, ◌-◌, ◌≡◌, ◌↔◌, inl, inr, refl, sym, ap, ◌∙◌, Bool, true, false, not, ◌&&◌,
  some, List, [], ◌∷◌, ◌++◌, ok, if◌then◌else◌, ◌==◌, nat_eq, Bool-cases, ==-eq, ==-refl, arith,
  contains,
}
use rclpy.Dict
use rclpy.Dict.{Dict, is_some}
use rclpy.Executor.WorkTracker.{
  WorkTracker, or_zero, discard, enter, exit, other_work_drained, wait_exit, occurrences, depth,
  Counts,
}

occurrences-append :
    (t : ℕ) (xs ys : List ℕ) → occurrences t (xs ++ ys) ≡ occurrences t xs + occurrences t ys
occurrences-append t [] ys = omega arith
occurrences-append t (x ∷ xs) ys = ground (arith, occurrences-append t xs ys)

or_zero-depth : (n : ℕ) → or_zero (depth n) ≡ n
or_zero-depth zero = refl
or_zero-depth (suc n) = refl

-- One more callback of `t`.
occurrences-insert :
    (t u : ℕ) (xs ys : List ℕ)
    → occurrences t (xs ++ u ∷ ys)
      ≡ (if u == t then suc (occurrences t (xs ++ ys)) else occurrences t (xs ++ ys))
occurrences-insert t u xs ys =
    ground (arith, occurrences-append t xs (u ∷ ys), occurrences-append t xs ys)

-- One callback more of `u`: the entry of `u` changes and no other.
depth-insert :
    (t u : ℕ) (xs ys : List ℕ)
    → depth (occurrences t (xs ++ u ∷ ys))
      ≡ (if u == t then some (occurrences t (xs ++ ys) + 1) else depth (occurrences t (xs ++ ys)))
depth-insert t u xs ys = elim (Bool-cases (u == t)) [
  | inl e ↦ rw (occurrences-insert t u xs ys, e) (ap some (omega arith))
  | inr e ↦ rw (occurrences-insert t u xs ys, e) refl
]

module _ (owner : ℕ) (w : WorkTracker) (xs ys : List ℕ) where
  -- A callback that begins is counted.
  pub enter-Counts : Counts w (xs ++ ys) → Counts (enter owner w) (xs ++ owner ∷ ys)
  unfolding enter
  enter-Counts c = record {
    at = λ t. elim (Bool-cases (owner == t)) [
      | inr e ↦
          rw (Dict.get-set w.executing_thread_counts owner t _, depth-insert t owner xs ys, e)
            (c.at t)
      | inl e ↦
          rw (Dict.get-set w.executing_thread_counts owner t _, depth-insert t owner xs ys, e)
            (ap some (
              ap (λ n. n + 1)
                (rw (c.at owner, or_zero-depth)
                  (ap (λ u. occurrences u (xs ++ ys)) (==-eq owner t e)))))
    ];
  }

-- The end of a callback.
module _ (owner : ℕ) (w : WorkTracker) where
  exit_last :
      Dict.get w.executing_thread_counts owner ≡ some 1
      → exit owner w
        ≡ ok (record {
          executing_thread_counts = Dict.del w.executing_thread_counts owner;
          waiting_threads = discard owner w.waiting_threads;
        })
  unfolding exit
  exit_last h = rw (h, exit) refl

  exit_inner :
      (n m : ℕ)
      → Dict.get w.executing_thread_counts owner ≡ some n
      → n ≡ suc (suc m)
      → exit owner w
        ≡ ok (record w {
          executing_thread_counts = Dict.set w.executing_thread_counts owner (suc m);
        })
  unfolding exit
  exit_inner n m h e =
      let less : n - 1 ≡ suc m = omega (arith, e) in
      let more : (suc m == 0) ≡ false = ground arith in rw (h, exit, less, more) refl

  pub exit-Counts :
      (xs ys : List ℕ)
      → Counts w (xs ++ owner ∷ ys)
      → (w' : WorkTracker) × (exit owner w ≡ ok w') × Counts w' (xs ++ ys)
  exit-Counts xs ys c = by_rest (occurrences owner (xs ++ ys)) refl
    where
      there : Dict.get w.executing_thread_counts owner ≡ some (occurrences owner (xs ++ ys) + 1)
      there = c.at owner ∙ depth-insert owner owner xs ys ∙ rw (==-refl owner) refl

      others :
          (t : ℕ)
          → (owner == t) ≡ false
          → Dict.get w.executing_thread_counts t ≡ depth (occurrences t (xs ++ ys))
      others t e = c.at t ∙ depth-insert t owner xs ys ∙ rw e refl

      same : (t : ℕ) → (owner == t) ≡ true → occurrences owner (xs ++ ys) ≡ occurrences t (xs ++ ys)
      same t e = ap (λ u. occurrences u (xs ++ ys)) (==-eq owner t e)

      by_rest :
          (n : ℕ)
          → occurrences owner (xs ++ ys) ≡ n
          → (w' : WorkTracker) × (exit owner w ≡ ok w') × Counts w' (xs ++ ys)
      by_rest zero z = (
        _,
        exit_last (there ∙ ap some (omega (arith, z))),
        record {
          at = λ t. elim (Bool-cases (owner == t)) [
            | inr e ↦ rw (Dict.get-del w.executing_thread_counts owner t, e) (others t e)
            | inl e ↦
                rw (Dict.get-del w.executing_thread_counts owner t, e) (ap depth (sym z ∙ same t e))
          ];
        },
      )
      by_rest (suc m) z = (
        _,
        exit_inner _ m there (omega (arith, z)),
        record {
          at = λ t. elim (Bool-cases (owner == t)) [
            | inr e ↦ rw (Dict.get-set w.executing_thread_counts owner t _, e) (others t e)
            | inl e ↦
                rw (Dict.get-set w.executing_thread_counts owner t _, e)
                  (ap depth (sym z ∙ same t e))
          ];
        },
      )

-- The condition that a waiting thread waits for.
module _ (w : WorkTracker) where
  is_open :
      (owners : List ℕ)
      → Counts w owners
      → (t : ℕ) → is_some (Dict.get w.executing_thread_counts t) ≡ not (occurrences t owners == 0)
  is_open owners c t = rw (c.at t) (of_depth (occurrences t owners))
    where
      of_depth : (n : ℕ) → is_some (depth n) ≡ not (n == 0)
      of_depth zero = refl
      of_depth (suc n) = ground arith

  -- While the tracker counts the open callbacks, a waiting thread may go on exactly if the owner of
  -- each open callback waits too.
  pub drained_iff :
      (owners : List ℕ)
      → Counts w owners
      → (other_work_drained w ≡ true)
        ↔ ((t : ℕ) → (occurrences t owners == 0) ≡ false → contains t w.waiting_threads ≡ true)
  unfolding other_work_drained
  drained_iff owners c =
      let keys = Dict.all-keys (λ t. contains t w.waiting_threads) w.executing_thread_counts in
      (
        λ h t e. keys.0 h t (is_open owners c t ∙ ap not e),
        λ h. keys.1 (λ t m. h t (ground (arith, is_open owners c t))),
      )

  contains-discard :
      (t u : ℕ) (ws : List ℕ) → contains u (discard t ws) ≡ (contains u ws && not (u == t))
  contains-discard t u [] = refl
  contains-discard t u (v ∷ vs) = ground (arith, contains-discard t u vs)

  -- Once a waiting thread has seen the others' work drained, its return keeps it drained for all other
  -- threads that wait.
  pub wait_exit_keeps_drained :
      (current : ℕ) (added : Bool)
      → other_work_drained w ≡ true
      → other_work_drained (wait_exit current added true w) ≡ true
  unfolding other_work_drained wait_exit
  wait_exit_keeps_drained current added h =
      elim (Bool-cases (added && not (is_some (Dict.get w.executing_thread_counts current)))) [
        | inr e ↦ rw e h
        | inl e ↦
            let keys =
              Dict.all-keys (λ t. contains t w.waiting_threads) w.executing_thread_counts in
            let same : (k : ℕ)
                → (k == current) ≡ true
                → is_some (Dict.get w.executing_thread_counts k)
                  ≡ is_some (Dict.get w.executing_thread_counts current) =
              λ k s. ap (λ t. is_some (Dict.get w.executing_thread_counts t)) (==-eq k current s) in
            let others : (k : ℕ)
                → is_some (Dict.get w.executing_thread_counts k) ≡ true
                → contains k (discard current w.waiting_threads) ≡ true =
              λ k m.
                ground (
                  arith,
                  e,
                  m,
                  same k,
                  contains-discard current k w.waiting_threads,
                  keys.0 h k m,
                ) in
            rw e (
              (Dict.all-keys (λ t. contains t (discard current w.waiting_threads))
                  w.executing_thread_counts).1
                others)
      ]
