-- ===== src/NodeParameters/Samples.antt =====
-- A sample node with an integer in a range and a read-only text; whole numbers stand for floats.
use rclpy.Prelude.{
  ℕ, suc, ◌≡◌, ◌≢◌, ◌⊎◌, ◌↔◌, refl, String, true, false, none, some, All, List, [], ◌∷◌, Result, ok,
  err, string_eq,
}
use rclpy.Prelude.Int.{ℤ, pos, negsuc, ◌+ℤ◌, ◌-ℤ◌, ◌*ℤ◌, ltb_ℤ, eqb_ℤ, div_ℤ, mod_ℤ}
use rclpy.Dict
use rclpy.Dict.{Dict}
use text.Mathlib.Text.{◌==◌ as str_eq}
use rclpy.Parameter.{integer, string, Parameter, Value}
use rclpy.NodeParameters.{
  Exception, not_declared, Reason, read_only_parameter, Outcome, successful, failed, IntegerRange,
  Descriptor, Node, get_parameter_or,
}
use rclpy.NodeParameters.Apply.{
  FloatOps, apply_integer_range, apply_ranges, apply_type, apply_descriptor, apply_one,
  apply_descriptors,
}
use rclpy.NodeParameters.Set.{
  any_rest, undeclared_parameters, check_undeclared_parameters, run_on_set, extend_all,
  call_pre_set, store_descriptor, store_one, store_all, new_event, commit, set_checked, set_own,
  set_declared, set_modified, set_parameters_atomically, set_parameters,
}
use rclpy.NodeParameters.Declare.{Declaration, with_value, of_value, declare_parameters}
use rclpy.NodeParameters.Range.{IsInRange, apply_integer_range_iff}
use rclpy.NodeParameters.Atomic.{Unchanged, Committed, modified, atomic}
use rclpy.NodeParameters.ReadOnly.{IsReadOnly, set_parameters_keeps}
use rclpy.NodeParameters.Undeclared.{Stopped, check_undeclared_drops}

abbrev magnitude : ℤ → ℕ
magnitude (pos n) = n
magnitude (negsuc n) = suc n

abbrev whole : FloatOps ℤ
whole = record {
  lt = ltb_ℤ;
  add = λ a b. a +ℤ b;
  sub = λ a b. a -ℤ b;
  mul = λ a b. a *ℤ b;
  div = λ a b. div_ℤ a (magnitude b);
  round = λ a. a;
  of_int = λ a. a;
  is_zero = λ a. eqb_ℤ a (pos 0);
  is_close = eqb_ℤ;
}

abbrev percent : IntegerRange
percent = record { from_value = pos 0; to_value = pos 100; step = 5 }

abbrev rate_of : ℤ → Parameter ℤ
rate_of n = record { name = "rate"; type_ = integer; value = Value.int n }

abbrev frame_of : String → Parameter ℤ
frame_of s = record { name = "frame"; type_ = string; value = Value.str s }

abbrev rate_descriptor : Descriptor ℤ
rate_descriptor = record {
  name = "rate";
  type_ = integer;
  read_only = false;
  dynamic_typing = false;
  integer_range = percent ∷ [];
  floating_point_range = [];
}

abbrev frame_descriptor : Descriptor ℤ
frame_descriptor = record {
  name = "frame";
  type_ = string;
  read_only = true;
  dynamic_typing = false;
  integer_range = [];
  floating_point_range = [];
}

-- A node with no parameters.
abbrev bare : Node ℤ
bare = record {
  name = "talker";
  namespace = "/";
  parameters = record { entries = [] };
  descriptors = record { entries = [] };
  parameter_overrides = record { entries = [] };
  allow_undeclared_parameters = false;
  pre_set_parameters_callbacks = [];
  on_set_parameters_callbacks = [];
  post_set_parameters_callbacks = 7 ∷ [];
  has_event_publisher = true;
  now = pos 0;
  published = [];
  post_calls = [];
}

abbrev talker : Node ℤ
talker = record bare {
  parameters = record { entries = ("rate", rate_of (pos 20)) ∷ ("frame", frame_of "map") ∷ [] };
  descriptors = record { entries = ("rate", rate_descriptor) ∷ ("frame", frame_descriptor) ∷ [] };
}

-- What setting runs.
unfoldable program : List (Parameter ℤ) → Node ℤ → Result Exception Outcome × Node ℤ
unfolding any_rest undeclared_parameters check_undeclared_parameters run_on_set extend_all
    call_pre_set store_descriptor store_one store_all new_event commit set_checked set_own
    set_declared set_modified set_parameters_atomically apply_integer_range apply_ranges apply_type
    apply_descriptor apply_one apply_descriptors get_parameter_or Dict.get Dict.set Dict.del mod_ℤ
    ◌-ℤ◌ ◌+ℤ◌
program ps self = set_parameters_atomically whole ps self

set-rate : (program (rate_of (pos 35) ∷ []) talker).0 ≡ ok successful
unfolding program
set-rate = refl

set-off_step : (program (rate_of (pos 36) ∷ []) talker).0 ≡ ok (failed (Reason.not_a_step "rate"))
unfolding program
set-off_step = refl

-- Both or neither: the read-only parameter makes the whole call fail.
set-frame :
    (program (rate_of (pos 35) ∷ frame_of "odom" ∷ []) talker).0
    ≡ ok (failed (read_only_parameter "frame"))
unfolding program
set-frame = refl

set-frame_rate :
    (program (rate_of (pos 35) ∷ frame_of "odom" ∷ []) talker).1.parameters ≡ talker.parameters
unfolding program
set-frame_rate = refl

-- A name that was never declared is refused with an empty list of names.
set-missing :
    (program (record { name = "speed"; type_ = integer; value = Value.int (pos 1) } ∷ []) talker).0
    ≡ err (not_declared [])
unfolding program
set-missing = refl

apply_integer_range_iff_example :
    (apply_integer_range "rate" (pos 35) percent ≡ successful) ↔ IsInRange (pos 35) percent
apply_integer_range_iff_example = apply_integer_range_iff "rate" (pos 35) percent

abbrev declarations : List (Declaration ℤ)
declarations = with_value "gain" (of_value (Value.int (pos 3))) ∷ []

abbrev requests : List (Parameter ℤ)
requests = rate_of (pos 35) ∷ []

atomic_example :
    let (r, after) = set_parameters_atomically whole requests talker in
    ((r ≡ ok successful) × Committed (modified whole talker requests) talker after)
    ⊎ ((r ≢ ok successful) × Unchanged whole talker after)
atomic_example = atomic whole requests talker

frame-IsReadOnly : IsReadOnly (Dict.get talker.descriptors "frame")
unfolding Dict.get
frame-IsReadOnly = refl

abbrev frames : List (Parameter ℤ)
frames = frame_of "odom" ∷ []

set_parameters_keeps_example :
    let after = (set_parameters whole frames talker).1 in
    (Dict.get after.parameters "frame" ≡ Dict.get talker.parameters "frame")
    × IsReadOnly (Dict.get after.descriptors "frame")
set_parameters_keeps_example = set_parameters_keeps whole "frame" frames talker frame-IsReadOnly

abbrev missing : List (Parameter ℤ)
missing = record { name = "speed"; type_ = integer; value = Value.int (pos 1) } ∷ []

check_undeclared_drops_example :
    ((check_undeclared_parameters talker missing ≡ none)
      × All (λ n. str_eq n "" ≡ true) (undeclared_parameters talker missing))
    ⊎ ((rest : List String) × (check_undeclared_parameters talker missing
          ≡ some (not_declared rest))
        × Stopped (undeclared_parameters talker missing) rest)
check_undeclared_drops_example = check_undeclared_drops talker missing refl

-- What the declarations make of the node without parameters.
abbrev declared : Node ℤ
declared = (declare_parameters whole "" declarations false bare).1
