-- ===== src/NodeParameters.antt =====
-- The parameters of a node (rclpy/rclpy/node.py, class BaseNode): the state, the exceptions, and
-- what the node reads from it. `F` is the type of Python's floats. Callbacks of the user are functions
-- of the list that they are handed; they have an identity, since `list.remove` looks for one.
pub mod Apply
pub mod Set
pub mod Declare
pub mod Range
pub mod Fits
pub mod Invariant
pub mod Stores
pub mod Keeps
pub mod Loop
pub mod Atomic
pub mod ReadOnly
pub mod Undeclared
pub mod Callbacks
pub mod Descriptors
pub mod Redescribed
mod Samples
use rclpy.Prelude.{
  ℕ, String, Bool, true, false, ◌&&◌, ◌||◌, not, Option, none, some, List, [], ◌∷◌, Result, ok, err,
  if◌then◌else◌, string_eq, ◌>>=◌,
}
use rclpy.Prelude.Int.{ℤ}
use rclpy.Dict
use rclpy.Dict.{Dict, is_some}
use rclpy.Parameter.{ParameterType, not_set, type_eq, Parameter, Value, null}

-- Why a request was not successful.
pub data Reason : Type 0 where
  read_only_parameter : String → Reason
  static_undeclared : Reason
  wrong_type : ParameterType → ParameterType → Reason
  out_of_range not_a_step : String → Reason
  invalid_return : Reason
  empty_list : Reason
  user : String → Reason

pub data Outcome : Type 0 where
  successful : Outcome
  failed : Reason → Outcome

pub data Exception : Type 0 where
  not_declared already_declared : List String → Exception
  immutable uninitialized : String → Exception
  invalid_name : String → Exception
  invalid_type : String → ParameterType → Exception
  invalid_value : String → Reason → Exception
  type_error value_error assertion_error key_error : Exception

pub record IntegerRange : Type 0 where
  pub from_value : ℤ
  pub to_value : ℤ
  pub step : ℕ  -- uint64

pub record FloatingPointRange (F : Type 0) : Type 0 where
  pub from_value : F
  pub to_value : F
  pub step : F

-- The fields of a descriptor message that the node reads or writes.
pub record Descriptor (F : Type 0) : Type 0 where
  pub name : String
  pub type_ : ParameterType
  pub read_only : Bool
  pub dynamic_typing : Bool
  pub integer_range : List IntegerRange
  pub floating_point_range : List (FloatingPointRange F)

-- `ParameterDescriptor()`
abbrev pub default_descriptor : {F : Type 0} → Descriptor F
default_descriptor = record {
  name = "";
  type_ = not_set;
  read_only = false;
  dynamic_typing = false;
  integer_range = [];
  floating_point_range = [];
}

pub record ParameterEvent (F : Type 0) : Type 0 where
  pub node : String
  pub stamp : ℤ
  pub new_parameters : List (Parameter F)
  pub changed_parameters : List (Parameter F)
  pub deleted_parameters : List (Parameter F)

pub record Callback (A B : Type 0) : Type 0 where
  pub ident : ℕ
  pub call : A → B

pub record Node (F : Type 0) : Type 0 where
  pub name : String
  pub namespace : String
  pub parameters : Dict String (Parameter F)
  pub descriptors : Dict String (Descriptor F)
  pub parameter_overrides : Dict String (Parameter F)
  pub allow_undeclared_parameters : Bool
  pub pre_set_parameters_callbacks : List (Callback (List (Parameter F)) (List (Parameter F)))
  -- `none` stands for a result that is no `SetParametersResult`.
  pub on_set_parameters_callbacks : List (Callback (List (Parameter F)) (Option Outcome))
  pub post_set_parameters_callbacks : List ℕ
  pub has_event_publisher : Bool
  pub now : ℤ  -- what the node's clock shows
  pub published : List (ParameterEvent F)  -- the events so far
  pub post_calls : List (ℕ × List (Parameter F))  -- the calls of post set callbacks so far

-- A method that may raise; what it changed before stays changed.
abbrev pub Action : Type 0 → Type 0 → Type 0
Action F A = Node F → Result Exception A × Node F

module _ {F : Type 0} where
  abbrev pub has_parameter : Node F → String → Bool
  has_parameter self name = is_some (Dict.get self.parameters name)

  -- A parameter of type NOT_SET is built without a check.
  abbrev pub unset : String → Parameter F
  unset name = record { name = name; type_ = not_set; value = null }

  unfoldable pub get_parameter_type : Node F → String → Result Exception ParameterType
  get_parameter_type self name = elim (Dict.get self.parameters name) [
    | some p ↦ ok p.type_
    | none ↦ if self.allow_undeclared_parameters then ok not_set else err (not_declared (name ∷ []))
  ]

  abbrev is_dynamic : Option (Descriptor F) → Bool
  is_dynamic none = false
  is_dynamic (some d) = d.dynamic_typing

  -- A declared parameter has a descriptor, so `_descriptors[name]` is there (`IsValid`).
  unfoldable pub get_parameter : Node F → String → Result Exception (Parameter F)
  get_parameter self name = elim (Dict.get self.parameters name) [
    | some p ↦
        if not (type_eq p.type_ not_set) || is_dynamic (Dict.get self.descriptors name)
        then ok p
        else err (uninitialized name)
    | none ↦
        if self.allow_undeclared_parameters then ok (unset name) else err (not_declared (name ∷ []))
  ]

  -- `[self.get_parameter(name) for name in names]`
  unfoldable pub get_parameters : Node F → List String → Result Exception (List (Parameter F))
  get_parameters self [] = ok []
  get_parameters self (name ∷ names) = do
    p ← get_parameter self name
    ps ← get_parameters self names
    ok (p ∷ ps)

  abbrev or_unset : String → Option (Parameter F) → Parameter F
  or_unset name none = unset name
  or_unset name (some p) = p

  unfoldable pub get_parameter_or : Node F → String → Option (Parameter F) → Parameter F
  get_parameter_or self name alternative = elim (Dict.get self.parameters name) [
    | none ↦ or_unset name alternative
    | some p ↦ if type_eq p.type_ not_set then or_unset name alternative else p
  ]

  unfoldable pub describe_parameter : Node F → String → Result Exception (Descriptor F)
  describe_parameter self name = elim (Dict.get self.descriptors name) [
    | some d ↦ ok d
    | none ↦
        if self.allow_undeclared_parameters
        then ok default_descriptor
        else err (not_declared (name ∷ []))
  ]

  unfoldable pub undeclare_parameter : String → Action F (Unit {0})
  undeclare_parameter name self = elim (Dict.get self.parameters name) [
    | none ↦ (err (not_declared (name ∷ [])), self)
    | some _ ↦ elim (Dict.get self.descriptors name) [
      | none ↦ (err key_error, self)
      | some d ↦ if d.read_only then (err (immutable name), self) else (
        ok tt,
        record self {
          parameters = Dict.del self.parameters name;
          descriptors = Dict.del self.descriptors name;
        },
      )
    ]
  ]
