-- ===== src/Executor/Spin/Samples.antt =====
-- Thread 4 spins, and thread 9 shuts the executor down.
use rclpy.Prelude.{◌≡◌, refl, true, false, none, some, [], ◌∷◌, err}
use rclpy.Executor.Spin.{Executor, enter_spin, runtime_error}
use rclpy.Executor.Spin.Threads.{System}

abbrev idle_executor : Executor
idle_executor = record {
  nodes = 1 ∷ [];
  has_guard = true;
  is_shutdown = false;
  is_spinning = false;
  spinning_thread = none;
  triggers = 0;
}

abbrev idle_system : System
idle_system = record { executor = idle_executor; spinning = []; stopping = []; drained = [] }

abbrev spinning_executor : Executor
spinning_executor = record idle_executor { is_spinning = true; spinning_thread = some 4 }

abbrev told : Executor
told = record spinning_executor { is_shutdown = true; triggers = 1 }

-- A second thread may not spin.
enters_not : enter_spin 5 spinning_executor ≡ err runtime_error
unfolding enter_spin
enters_not = refl

abbrev told_system : System
told_system = record { executor = told; spinning = 4 ∷ []; stopping = 9 ∷ []; drained = [] }
