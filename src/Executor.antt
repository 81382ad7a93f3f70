-- ===== src/Executor.antt =====
-- rclpy/rclpy/executors.py: the executor's work tracker, the handlers of entities and the tasks that are
-- ready.
pub mod WorkTracker
pub mod Handler
pub mod Tasks
pub mod Spin
