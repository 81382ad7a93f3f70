-- ===== src/Executor/Spin.antt =====
-- The executor's nodes, its flags of spinning, and shutting it down (rclpy/rclpy/executors.py, class Executor). Nodes and
-- threads are numbers; what the waits in `shutdown` answer is given.
pub mod Threads
mod Samples
use rclpy.Prelude.{
  ℕ, suc, Bool, true, false, not, ◌&&◌, ◌||◌, Option, none, some, List, [], ◌∷◌, ◌++◌, keep, Result,
  ok, err, if◌then◌else◌, ◌==◌, contains,
}

pub record Executor : Type 0 where
  pub nodes : List ℕ
  pub has_guard : Bool  -- `_guard` is not `None`
  pub is_shutdown : Bool
  pub is_spinning : Bool
  pub spinning_thread : Option ℕ
  pub triggers : ℕ  -- how often the guard condition was triggered

pub data Error : Type 0 where
  runtime_error : Error

unfoldable pub wake : Executor → Executor
wake x = record x { triggers = if x.has_guard then suc x.triggers else x.triggers }

unfoldable pub enter_spin : ℕ → Executor → Result Error Executor
enter_spin current x =
    if x.is_spinning
    then err runtime_error
    else ok (record x { is_spinning = true; spinning_thread = some current })

unfoldable pub exit_spin : Executor → Executor
exit_spin x = record x { is_spinning = false; spinning_thread = none }

unfoldable pub add_node : ℕ → Executor → Bool × Executor
add_node n x =
    if contains n x.nodes then (false, x) else (true, wake (record x { nodes = n ∷ x.nodes }))

unfoldable pub remove_node : ℕ → Executor → Executor
remove_node n x =
    if contains n x.nodes then wake (record x { nodes = keep (λ m. not (m == n)) x.nodes }) else x

abbrev pub is_thread : ℕ → Option ℕ → Bool
is_thread current none = false
is_thread current (some t) = t == current

-- `shutdown` up to the wait for the work of the others.
unfoldable pub begin_shutdown : Executor → Executor
begin_shutdown x = if not x.is_shutdown then wake (record x { is_shutdown = true }) else x

-- `shutdown` behind it, with what it answered: whether to go on.
unfoldable pub clear_nodes : Bool → Executor → Bool × Executor
clear_nodes drained x = if not drained then (false, x) else (true, record x { nodes = [] })

-- The wait for the spinning thread, which is left out on this thread, with what it answered, and the end. The guard
-- condition for signals and the kept generator go with `_guard` and are left out.
unfoldable pub destroy : ℕ → Bool → Executor → Bool × Executor
destroy current exited x =
    if not (is_thread current x.spinning_thread) && not exited
    then (false, x)
    else (true, record x { has_guard = false })
