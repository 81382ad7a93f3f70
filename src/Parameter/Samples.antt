-- ===== src/Parameter/Samples.antt =====
-- Sample values, with a text for each float.
use rclpy.Prelude.{String, ◌≡◌, refl, true, none, some, [], ◌∷◌, ok, err}
use rclpy.Prelude.Int.{pos}
use rclpy.Parameter.{
  integer, integer_array, array, Item, Value, seq, Parameter, value_error, from_parameter_value,
  check, new,
}
use rclpy.Parameter.Laws.{meets, check-from_parameter_value}

abbrev numbers : Value String
numbers = seq array (Item.int (pos 4) ∷ [])

numbers_type : from_parameter_value numbers ≡ ok integer_array
unfolding from_parameter_value
numbers_type = refl

-- An empty array is taken for a byte array, which must be a list or a tuple.
new-empty_array : new {F = String} "a" none (seq array []) ≡ err value_error
unfolding new
new-empty_array = refl

-- `Parameter('a', Parameter.Type.INTEGER, True)` is accepted.
truth :
    new {F = String} "a" (some integer) (Value.bool true)
    ≡ ok (record { name = "a"; type_ = integer; value = Value.bool true })
unfolding new
truth = refl

check-from_parameter_value_example : check integer_array numbers ≡ meets integer_array numbers
check-from_parameter_value_example = check-from_parameter_value numbers integer_array numbers_type

abbrev flag : Parameter String
flag = record { name = "a"; type_ = integer; value = Value.bool true }
