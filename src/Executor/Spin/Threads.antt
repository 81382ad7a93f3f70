-- ===== src/Executor/Spin/Threads.antt =====
-- Threads that spin an executor and shut it down (rclpy/rclpy/executors.py).
use rclpy.Prelude.{
  ℕ, ◌≡◌, Bool, true, false, Option, none, some, List, [], ◌∷◌, ◌++◌, ok, if◌then◌else◌,
}
use rclpy.Executor.Spin.{
  Executor, wake, enter_spin, exit_spin, add_node, remove_node, begin_shutdown, clear_nodes,
  destroy,
}

-- The executor, the threads that are inside a spin, those that are inside a shutdown and wait for the work of the
-- others, and those that have seen it drained.
pub record System : Type 0 where
  pub executor : Executor
  pub spinning : List ℕ
  pub stopping : List ℕ
  pub drained : List ℕ

pub data Step : System → System → Type 0 where
  enter :
      (s : System) (t : ℕ) (x : Executor)
      → enter_spin t s.executor ≡ ok x
      → Step s (record s { executor = x; spinning = s.spinning ++ t ∷ [] })
  leave :
      (s : System) (t : ℕ) (before after : List ℕ)
      → s.spinning ≡ before ++ t ∷ after
      → Step s (record s { executor = exit_spin s.executor; spinning = before ++ after })
  add : (s : System) (n : ℕ) → Step s (record s { executor = (add_node n s.executor).1 })
  remove : (s : System) (n : ℕ) → Step s (record s { executor = remove_node n s.executor })
  waking : (s : System) → Step s (record s { executor = wake s.executor })
  shut_down :
      (s : System) (t : ℕ)
      → Step s (record s { executor = begin_shutdown s.executor; stopping = t ∷ s.stopping })
  -- behind `begin_shutdown` on this thread
  drain :
      (s : System) (t : ℕ) (before after : List ℕ) (answer : Bool)
      → s.stopping ≡ before ++ t ∷ after
      → Step s (record s {
        executor = (clear_nodes answer s.executor).1;
        stopping = before ++ after;
        drained = if answer then t ∷ s.drained else s.drained;
      })
  -- `wait_for` answers that the spin has ended only if it has
  finish :
      (s : System) (t : ℕ) (before after : List ℕ) (exited : Bool)
      → s.drained ≡ before ++ t ∷ after
      → (exited ≡ true → s.executor.is_spinning ≡ false)
      → Step s (record s { executor = (destroy t exited s.executor).1; drained = before ++ after })

pub data Reach (s : System) : System → Type 0 where
  here : Reach s s
  next : {t u : System} → Reach s t → Step t u → Reach s u

-- The flags tell which thread spins.
abbrev Flags : Bool → Option ℕ → List ℕ → Type 0
Flags false none spinning = spinning ≡ []
Flags true (some t) spinning = spinning ≡ t ∷ []
Flags _ _ spinning = ⊥

pub record IsSound (s : System) : Type 0 where
  pub flags : Flags s.executor.is_spinning s.executor.spinning_thread s.spinning
  pub guard : s.executor.has_guard ≡ false → s.executor.is_shutdown ≡ true
  pub waiting : s.executor.is_shutdown ≡ false → s.drained ≡ []
  pub told : s.executor.is_shutdown ≡ false → s.stopping ≡ []

-- What the operations that do not spin leave alone.
pub record SameFlags (x y : Executor) : Type 0 where
  pub spinning : y.is_spinning ≡ x.is_spinning
  pub thread : y.spinning_thread ≡ x.spinning_thread
  pub guard : y.has_guard ≡ x.has_guard
  pub down : y.is_shutdown ≡ x.is_shutdown
