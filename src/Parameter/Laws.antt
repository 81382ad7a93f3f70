-- ===== src/Parameter/Laws.antt =====
-- Parameters: the type found from a value, and what the constructor lets through.
use rclpy.Prelude.{◌≡◌, ◌⊎◌, String, Bool, true, ◌&&◌, Option, none, some, all, ok, arith}
use rclpy.Parameter.{
  ParameterType, byte_array, bool_array, string_array, Value, seq, Parameter, from_parameter_value,
  check, new, is_byte, is_list_or_tuple,
}

-- What a value must meet beyond its items' class, for the type found from it to admit it.
abbrev pub meets : {F : Type 0} → ParameterType → Value F → Bool
meets byte_array (seq kind items) = is_list_or_tuple kind && all is_byte items
meets bool_array (seq kind items) = is_list_or_tuple kind
meets string_array (seq kind items) = is_list_or_tuple kind
meets _ _ = true

-- The type found from a value admits the value, but for three cases: byte arrays must be lists or
-- tuples of single bytes, and arrays of Booleans or texts must be lists or tuples.
pub check-from_parameter_value :
    {F : Type 0} (v : Value F) (t : ParameterType)
    → from_parameter_value v ≡ ok t
    → check t v ≡ meets t v
unfolding from_parameter_value check
check-from_parameter_value (seq k items) byte_array h = ground arith
check-from_parameter_value (seq k items) t h = ground arith
check-from_parameter_value v t h = ground arith

-- A constructed parameter has the name and the value that it was given, a type that admits the
-- value, and the type that was asked for, or the one found from the value if none was.
pub new_exact :
    {F : Type 0} (name : String) (type_ : Option ParameterType) (v : Value F) (p : Parameter F)
    → new name type_ v ≡ ok p
    → (p.name ≡ name)
      × (p.value ≡ v)
      × (check p.type_ v ≡ true)
      × ((type_ ≡ some p.type_) ⊎ ((type_ ≡ none) × (from_parameter_value v ≡ ok p.type_)))
unfolding new
new_exact name type_ v p h = ground arith
