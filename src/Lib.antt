-- ===== src/Lib.antt =====
-- rclpy, the Python client library of ROS 2 (the Python package rclpy/rclpy).
--
-- The parts and the files that model them:
--   Duration, Time: rclpy/rclpy/duration.py and time.py. A time point or a duration is a whole number of
--     nanoseconds in the range of int64_t, which the C extension checks; the classes of messages are a parameter,
--     a class `MsgClass` with the law that a message keeps what it was constructed with.
--   Parameter: rclpy/rclpy/parameter.py. A value is one of the classes that the code tells apart with isinstance.
--   NodeParameters: the parameters of rclpy/rclpy/node.py, class BaseNode. A `Node` is the state that these methods
--     read and write; a method is a function from a node to a result or an exception and the node behind it.
--     Apply is _apply_descriptors and below, Set is everything that sets, Declare everything that declares,
--     Descriptors is set_descriptor, Callbacks adds and removes callbacks. Floats
--     and the functions on them are a parameter (`FloatOps`). The descriptor objects, which the code changes while it
--     applies them, come back beside the outcome. User callbacks are functions of the list that they get.
--     Each declaration is taken to have a descriptor object of its own, and converting parameters to messages and
--     publishing the event are taken to succeed.
--   ParameterNames: the methods of the same class that look into names, list_parameters and
--     get_parameters_by_prefix, over names as lists of code points.
--   TimeSource: rclpy/rclpy/time_source.py, over the node of NodeParameters. A clock, which the C library keeps, is what
--     the source has told it.
--   Jumps: rclpy/rclpy/clock.py, thresholds and registration of jump callbacks, and sleep_until, over the jumps that the
--     C library reports while it sleeps.
--   CallbackGroup: rclpy/rclpy/callback_groups.py.
--   Executor: rclpy/rclpy/executors.py. WorkTracker is _WorkTracker, Handler the handler that _make_handler makes, cut
--     where other threads can come in, and Handler/Jobs its interleavings as a step relation, where
--     the guard condition may be destroyed on the way, so that triggering it raises. Tasks is the table of tasks
--     and the loop that yields the ready ones; what other threads do meanwhile is a list of moments, one for each round.
--     Spin is the executor's nodes and its flags, with shutdown cut where it waits.
--   Future: rclpy/rclpy/task.py, class Future. What a method does to its executor and which callbacks it calls is a
--     list of effects.
--   Task: rclpy/rclpy/task.py, class Task. One step of the function or coroutine is a parameter.
--   Client: rclpy/rclpy/client.py, the pending requests, and what _take_client of executors.py does with a response.
--     The sequence numbers, which the C library gives, are arguments.
--   ActionServer: rclpy/rclpy/action/server.py, the goals that are tracked and the requests about them. The goal
--     states of the C library are a parameter (`GoalStates`). The loop over the goals to be cancelled, which removes from
--     the list that it goes over, runs on fuel, as many rounds as there are goals at first, which is enough since each
--     round moves the index by one.
--     Goals is the rest of a goal handle and the execution of a goal, whose callback is a function on servers.
--   Context: rclpy/rclpy/context.py. Nodes is the loop that destroys the nodes of a context, on fuel for one round more
--     than there are nodes, which is enough since each round moves the index by one; Logging and Process count the
--     contexts that use logging, whose configuration and end may raise; Calls and Once follow the callbacks of on_shutdown.
--   Lifecycle: rclpy/rclpy/lifecycle. The C library's state machine is a parameter with laws (`Rcl`, `Machine.Laws`),
--     the constants of the messages are another (`Msgs`), and what user code does is a third (`UserCode`).
--   ActionClient: rclpy/rclpy/action/client.py. Each of its tables of pending requests is that of a `Client`.
--     Its methods run whole, one after another.
--   Dict, Prelude: Python's dictionaries in order of insertion, results with exceptions, whole numbers, lists.
--
-- How they interact: setting and declaring construct a `Parameter`, apply the descriptors, run the callbacks and store; a
-- handler asks its group, enters the work tracker and gives both back; a future hands its callbacks and tasks to
-- the executor, whose table of tasks yields them to the threads. A time source reads and declares a parameter of its node.
--
-- The other loops go over lists, and a bounded `for` over one moment for each round.
--
-- Not modelled: the C extension; the entities of the executor's wait loop; the blocking call of a
-- client, services; timers; quality of service; the parameter services; the
-- asynchronous nodes; logging. Exceptions that user callbacks raise are left out where a method does not catch them.
pub mod ActionClient
pub mod ActionServer
pub mod CallbackGroup
pub mod Client
pub mod Context
pub mod Dict
pub mod Duration
pub mod Executor
pub mod Future
pub mod Jumps
pub mod Lifecycle
pub mod NodeParameters
pub mod Parameter
pub mod ParameterNames
pub mod Prelude
pub mod Task
pub mod Time
pub mod TimeSource
