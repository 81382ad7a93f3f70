-- ===== src/Parameter.antt =====
-- rclpy/rclpy/parameter.py: the dynamic values that a parameter can be given, their types, and the
-- `Parameter` object. `F` is the type of Python's floats.
pub mod Laws
mod Samples
use rclpy.Prelude.{
  ℕ, String, Bool, true, false, ◌&&◌, Option, none, some, List, length, all, Result, ok, err, ◌==◌,
  if◌then◌else◌, not,
}
use rclpy.Prelude.Int.{ℤ}

pub data ParameterType : Type 0 where
  not_set bool integer double string : ParameterType
  byte_array bool_array integer_array double_array string_array : ParameterType

pub ParameterType-discrete : Discrete ParameterType
ParameterType-discrete = hlevel

-- `a == b` on the enumeration.
abbrev pub type_eq : ParameterType → ParameterType → Bool
type_eq not_set not_set = true
type_eq ParameterType.bool ParameterType.bool = true
type_eq integer integer = true
type_eq double double = true
type_eq string string = true
type_eq byte_array byte_array = true
type_eq bool_array bool_array = true
type_eq integer_array integer_array = true
type_eq double_array double_array = true
type_eq string_array string_array = true
type_eq _ _ = false

-- The classes of sequences that are told apart.
pub data Seq : Type 0 where
  list tuple array : Seq

pub data Item (F : Type 0) : Type 0 where
  bytes : List ℕ → Item F
  bool : Bool → Item F
  int : ℤ → Item F
  float : F → Item F
  str : String → Item F

pub data Value (F : Type 0) : Type 0 where
  null : Value F
  bool : Bool → Value F
  int : ℤ → Value F
  float : F → Value F
  str : String → Value F
  seq : Seq → List (Item F) → Value F
  other : Value F

pub data Error : Type 0 where
  type_error value_error : Error

abbrev pub is_list_or_tuple : Seq → Bool
is_list_or_tuple array = false
is_list_or_tuple _ = true

module _ {F : Type 0} where
  -- `isinstance(v, C)`; a `bool` is an `int` too.
  abbrev pub is_bytes : Item F → Bool
  is_bytes (Item.bytes _) = true
  is_bytes _ = false

  abbrev pub is_byte : Item F → Bool
  is_byte (Item.bytes bs) = length bs == 1
  is_byte _ = false

  abbrev pub is_bool : Item F → Bool
  is_bool (Item.bool _) = true
  is_bool _ = false

  abbrev pub is_int : Item F → Bool
  is_int (Item.int _) = true
  is_int (Item.bool _) = true
  is_int _ = false

  abbrev pub is_float : Item F → Bool
  is_float (Item.float _) = true
  is_float _ = false

  abbrev pub is_str : Item F → Bool
  is_str (Item.str _) = true
  is_str _ = false

  -- The tests on a sequence, in their order.
  sequence_type : List (Item F) → Result Error ParameterType
  sequence_type items =
      if all is_bytes items
      then ok byte_array
      else if all is_bool items
      then ok bool_array
      else if all is_int items
      then ok integer_array
      else if all is_float items
      then ok double_array
      else if all is_str items
      then ok string_array
      else err type_error

  unfoldable pub from_parameter_value : Value F → Result Error ParameterType
  unfolding sequence_type
  from_parameter_value null = ok not_set
  from_parameter_value (Value.bool _) = ok ParameterType.bool
  from_parameter_value (Value.int _) = ok integer
  from_parameter_value (Value.float _) = ok double
  from_parameter_value (Value.str _) = ok string
  from_parameter_value (seq _ items) = sequence_type items
  from_parameter_value other = err type_error

  unfoldable pub check : ParameterType → Value F → Bool
  check not_set null = true
  check ParameterType.bool (Value.bool _) = true
  check integer (Value.int _) = true
  check integer (Value.bool _) = true
  check double (Value.float _) = true
  check string (Value.str _) = true
  check byte_array (seq kind items) = is_list_or_tuple kind && all is_byte items
  check bool_array (seq kind items) = is_list_or_tuple kind && all is_bool items
  check integer_array (seq kind items) = all is_int items
  check double_array (seq kind items) = all is_float items
  check string_array (seq kind items) = is_list_or_tuple kind && all is_str items
  check _ _ = false

pub record Parameter (F : Type 0) : Type 0 where
  pub name : String
  pub type_ : ParameterType
  pub value : Value F

module _ {F : Type 0} where
  -- The end of `Parameter.__init__`, where the type is known.
  checked : String → ParameterType → Value F → Result Error (Parameter F)
  unfolding check
  checked name type_ value =
      if not (check type_ value)
      then err value_error
      else ok (record { name = name; type_ = type_; value = value })

  -- `Parameter(name, type_, value)`; without a type it is found from the value.
  unfoldable pub new : String → Option ParameterType → Value F → Result Error (Parameter F)
  unfolding from_parameter_value checked
  new name none value = elim (from_parameter_value value) [
    | err e ↦ err e
    | ok type_ ↦ checked name type_ value
  ]
  new name (some type_) value = checked name type_ value
