-- ===== src/TimeSource.antt =====
-- rclpy/rclpy/time_source.py: what switches the clocks of a node between system time and the time
-- on the topic /clock. A clock is what the source has told it; nodes, clocks and the source's
-- callback are told apart by numbers. Creating and destroying a subscription does not raise.
pub mod Synchronized
pub mod Attached
mod Samples
use text.Mathlib.Text.{◌==◌ as str_eq}
use rclpy.Prelude.{
  ℕ, String, Bool, true, false, not, Option, none, some, List, [], ◌∷◌, map, Result, ok, err,
  if◌then◌else◌, ◌==◌,
}
use rclpy.Prelude.Int.{ℤ, pos}
use rclpy.Duration.{Error, value_error}
use rclpy.Time.{ClockType, ros_time, clock_eq, Time}
use rclpy.Parameter
use rclpy.Parameter.{type_eq, Parameter, Value}
use rclpy.NodeParameters.{
  Reason, Outcome, successful, failed, Exception, Node, has_parameter, get_parameter,
}
use rclpy.NodeParameters.Apply.{FloatOps}
use rclpy.NodeParameters.Declare.{of_value, declare_parameter}

pub record Clock : Type 0 where
  pub ident : ℕ
  pub clock_type : ClockType
  pub ros_time_is_active : Bool
  pub ros_time_override : ℤ  -- nanoseconds

pub record TimeSource : Type 0 where
  pub ident : ℕ  -- of the bound method `_on_parameter_event`
  pub clock_sub : Option ℕ  -- the node that the subscription was created on
  pub node : Option ℕ  -- what the weak reference refers to
  pub associated_clocks : List Clock
  pub last_time_set : ℤ
  pub is_active : Bool

-- `TimeSource()`
abbrev pub new : ℕ → TimeSource
new ident = record {
  ident = ident;
  clock_sub = none;
  node = none;
  associated_clocks = [];
  last_time_set = pos 0;
  is_active = false;
}

abbrev pub use_sim_time : String
use_sim_time = "use_sim_time"

-- `_get_node`: a weak reference is followed while its node is alive.
abbrev pub get_node : (ℕ → Bool) → Option ℕ → Option ℕ
get_node alive none = none
get_node alive (some n) = if alive n then some n else none

-- The subscription after `_subscribe_to_clock_topic`.
abbrev pub subscribe_to_clock_topic : (ℕ → Bool) → Option ℕ → Option ℕ → Option ℕ
subscribe_to_clock_topic alive there (some sub) = some sub
subscribe_to_clock_topic alive there none = get_node alive there

-- The setter of `ros_time_is_active`.
unfoldable pub set_ros_time_is_active : (ℕ → Bool) → Bool → TimeSource → TimeSource
set_ros_time_is_active alive true self = if self.is_active then self else record self {
  is_active = true;
  associated_clocks =
      map (λ (c : Clock). record c { ros_time_is_active = true }) self.associated_clocks;
  clock_sub = subscribe_to_clock_topic alive self.node self.clock_sub;
}
set_ros_time_is_active alive false self = if not self.is_active then self else record self {
  is_active = false;
  associated_clocks =
      map (λ (c : Clock). record c { ros_time_is_active = false }) self.associated_clocks;
  clock_sub = none;
}

unfoldable pub detach_node : TimeSource → TimeSource
detach_node self = record self { clock_sub = none; node = none }

-- `_associated_clocks.add(clock)`, where a clock that is there is the same object.
unfoldable pub add_clock : Clock → List Clock → List Clock
add_clock c [] = c ∷ []
add_clock c (d ∷ ds) = let rest = add_clock c ds in if d.ident == c.ident then c ∷ ds else d ∷ rest

unfoldable pub attach_clock : Clock → TimeSource → Result Error TimeSource
unfolding add_clock
attach_clock clock self =
    if not (clock_eq clock.clock_type ros_time)
    then err value_error
    else ok (record self {
      associated_clocks =
          add_clock
            (record clock {
              ros_time_override = self.last_time_set;
              ros_time_is_active = self.is_active;
            })
            self.associated_clocks;
    })

-- `clock_callback`, of the time that the message holds.
unfoldable pub clock_callback : Time → TimeSource → TimeSource
clock_callback t self = record self {
  last_time_set = t.nanoseconds;
  associated_clocks =
      map (λ (c : Clock). record c { ros_time_override = t.nanoseconds }) self.associated_clocks;
}

module _ {F : Type 0} where
  -- The value of a parameter of type BOOL.
  abbrev pub as_bool : Value F → Bool
  as_bool (Value.bool b) = b
  as_bool _ = false

  unfoldable pub on_parameter_event :
      (ℕ → Bool) → List (Parameter F) → TimeSource → Outcome × TimeSource
  unfolding set_ros_time_is_active
  on_parameter_event alive [] self = (successful, self)
  on_parameter_event alive (p ∷ ps) self =
      let rest = on_parameter_event alive ps self in
      if not (str_eq p.name use_sim_time)
      then rest
      else if type_eq p.type_ Parameter.ParameterType.bool
      then (successful, set_ros_time_is_active alive (as_bool p.value) self)
      else (failed (Reason.user "use_sim_time parameter set to something besides a bool"), self)

  -- What `attach_node` makes of the parameter.
  unfoldable pub adopt : Parameter F → TimeSource → TimeSource
  unfolding set_ros_time_is_active
  adopt p self =
      if type_eq p.type_ Parameter.ParameterType.bool
      then set_ros_time_is_active (λ n. true) (as_bool p.value) self
      else self

  -- The answer of `_on_parameter_event` depends on the list alone.
  abbrev pub listen : TimeSource → Node F → Node F
  listen self node = record node {
    on_set_parameters_callbacks =
        record {
          ident = self.ident;
          call = λ (ps : List (Parameter F)). some (on_parameter_event (λ n. true) ps self).0;
        }
        ∷ node.on_set_parameters_callbacks;
  }

-- The first part of `attach_node`: a node that is there is detached.
unfoldable pub refer : ℕ → TimeSource → TimeSource
unfolding detach_node
refer n self =
    let old : TimeSource = elim self.node [ none ↦ self | some _ ↦ detach_node self ] in
    record old { node = some n }

module _ {F : Type 0} (ops : FloatOps F) where
  -- The parameter `use_sim_time` of the node, declared if it is not there.
  unfoldable pub use_sim_time_param : Node F → Result Exception (Parameter F) × Node F
  use_sim_time_param node =
      if has_parameter node use_sim_time
      then (get_parameter node use_sim_time, node)
      else (let (r, node') =
            declare_parameter ops use_sim_time (some (of_value (Value.bool false))) none false
              node in
          elim r [ err x ↦ (err x, node') | ok _ ↦ (get_parameter node' use_sim_time, node') ])

  -- The node, which is alive, has the number `n`.
  unfoldable pub attach_node :
      ℕ → Node F → TimeSource → Result Exception (Unit {0}) × (TimeSource × Node F)
  unfolding use_sim_time_param adopt refer on_parameter_event
  attach_node n node self =
      let self' = refer n self in
      let (r, node') = use_sim_time_param node in
      elim r [
        | err x ↦ (err x, (self', node'))
        | ok p ↦ (ok tt, (adopt p self', listen self' node'))
      ]
