-- ===== src/TimeSource/Samples.antt =====
-- A time source that goes from one node to another, and a clock.
use rclpy.Prelude.{
  ℕ, Bool, ◌≡◌, refl, true, false, none, some, [], ◌∷◌, ok, string_eq, if◌then◌else◌,
}
use rclpy.Prelude.Int.{pos}
use rclpy.Dict
use rclpy.Time.{ros_time, clock_eq, Time}
use rclpy.Parameter
use rclpy.Parameter.{Parameter, Value}
use rclpy.NodeParameters.{Node, has_parameter, get_parameter}
use rclpy.NodeParameters.Apply.{FloatOps}
use rclpy.TimeSource.{
  Clock, TimeSource, new, set_ros_time_is_active, attach_clock, clock_callback, attach_node,
}
use rclpy.TimeSource.Synchronized.{
  IsSynchronized, IsShowing, here, next, switch, clock, message, Reach-IsSynchronized,
}
use rclpy.TimeSource.Attached.{attach_node-subscription}

abbrev no_floats : FloatOps (Unit {0})
no_floats = record {
  lt = λ a b. false;
  add = λ a b. tt;
  sub = λ a b. tt;
  mul = λ a b. tt;
  div = λ a b. tt;
  round = λ a. pos 0;
  of_int = λ a. tt;
  is_zero = λ a. true;
  is_close = λ a b. true;
}

abbrev simulated : Parameter (Unit {0})
simulated = record {
  name = "use_sim_time";
  type_ = Parameter.ParameterType.bool;
  value = Value.bool true;
}

abbrev robot : Node (Unit {0})
robot = record {
  name = "robot";
  namespace = "/";
  parameters = record { entries = ("use_sim_time", simulated) ∷ [] };
  descriptors = record { entries = [] };
  parameter_overrides = record { entries = [] };
  allow_undeclared_parameters = false;
  pre_set_parameters_callbacks = [];
  on_set_parameters_callbacks = [];
  post_set_parameters_callbacks = [];
  has_event_publisher = false;
  now = pos 0;
  published = [];
  post_calls = [];
}

abbrev wall : Clock
wall = record {
  ident = 1;
  clock_type = ros_time;
  ros_time_is_active = false;
  ros_time_override = pos 9;
}

abbrev second : Time
second = record { nanoseconds = pos 1000000000; clock_type = ros_time }

-- Active, with a clock.
abbrev running : TimeSource
running = record {
  ident = 5;
  clock_sub = none;
  node = none;
  associated_clocks =
      record {
        ident = 1;
        clock_type = ros_time;
        ros_time_is_active = true;
        ros_time_override = pos 0;
      }
      ∷ [];
  last_time_set = pos 0;
  is_active = true;
}

wall-attached : attach_clock wall (set_ros_time_is_active (λ n. true) true (new 5)) ≡ ok running
unfolding attach_clock set_ros_time_is_active clock_eq
wall-attached = refl

Reach-IsSynchronized_example :
    let s = clock_callback second running in
    IsShowing (pos 1000000000) s
    × ((alive : ℕ → Bool) (b : Bool) → (set_ros_time_is_active alive b s).is_active ≡ b)
Reach-IsSynchronized_example =
    Reach-IsSynchronized no_floats 5 (pos 1000000000) (clock_callback second running) (
      next (next (next here (switch (λ n. true) true (new 5))) (clock wall _ running wall-attached))
        (message second running))

running-IsSynchronized : IsSynchronized running
running-IsSynchronized =
    (Reach-IsSynchronized no_floats 5 (pos 0) running
      (next (next here (switch (λ n. true) true (new 5))) (clock wall _ running wall-attached))).0

simulated-there : get_parameter robot "use_sim_time" ≡ ok simulated
unfolding get_parameter Dict.get
simulated-there = refl

simulated-has : has_parameter robot "use_sim_time" ≡ true
unfolding Dict.get
simulated-has = refl

attach_node-subscription_example :
    let (r, (s, node)) = attach_node no_floats 3 robot running in
    (r ≡ ok tt)
    × (s.is_active ≡ true)
    × (s.node ≡ some 3)
    × (s.clock_sub ≡ (if running.is_active then none else some 3))
attach_node-subscription_example =
    attach_node-subscription no_floats 3 robot simulated running running-IsSynchronized
      simulated-has simulated-there refl refl
