-- ===== src/NodeParameters/Apply.antt =====
-- Descriptors applied to parameters: `_apply_descriptors`, `_apply_descriptor` and the range checks.
-- A descriptor is written to while it is applied, so it comes back beside the outcome.
use rclpy.Prelude.{
  String, Bool, true, ◌&&◌, ◌||◌, ◌==◌, not, none, some, List, [], ◌∷◌, if◌then◌else◌, string_eq,
}
use rclpy.Prelude.Int.{ℤ, pos, ltb_ℤ, eqb_ℤ, ◌-ℤ◌, mod_ℤ}
use rclpy.Dict
use rclpy.Dict.{Dict, is_some}
use rclpy.Parameter.{ParameterType, not_set, integer, double, type_eq, Parameter, Value}
use rclpy.NodeParameters.{
  read_only_parameter, static_undeclared, wrong_type, out_of_range, not_a_step, Outcome, successful,
  failed, IntegerRange, FloatingPointRange, Descriptor,
}

-- Python's floats and the functions on them that the range check calls.
pub record FloatOps (F : Type 0) : Type 0 where
  pub lt : F → F → Bool
  pub add : F → F → F
  pub sub : F → F → F
  pub mul : F → F → F
  pub div : F → F → F
  pub round : F → ℤ
  pub of_int : ℤ → F
  pub is_zero : F → Bool
  pub is_close : F → F → Bool  -- `math.isclose` with PARAM_REL_TOL

abbrev pub min_ℤ : ℤ → ℤ → ℤ
min_ℤ a b = if ltb_ℤ b a then b else a

abbrev pub max_ℤ : ℤ → ℤ → ℤ
max_ℤ a b = if ltb_ℤ a b then b else a

-- The value of an integer parameter: an `int`, or a `bool`, which is one.
abbrev pub as_int : {F : Type 0} → Value F → ℤ
as_int (Value.int z) = z
as_int (Value.bool true) = pos 1
as_int _ = pos 0

unfoldable pub apply_integer_range : String → ℤ → IntegerRange → Outcome
apply_integer_range name value range =
    let min_value = min_ℤ range.from_value range.to_value in
    let max_value = max_ℤ range.from_value range.to_value in
    if eqb_ℤ value min_value || eqb_ℤ value max_value
    then successful
    else if not (ltb_ℤ min_value value && ltb_ℤ value max_value)
    then failed (out_of_range name)
    else if not (range.step == 0) && not (mod_ℤ (value -ℤ min_value) range.step == 0)
    then failed (not_a_step name)
    else successful

module _ {F : Type 0} (ops : FloatOps F) where
  open ops use {lt, add, sub, mul, div, round, of_int, is_zero, is_close}

  unfoldable pub apply_floating_point_range : String → F → FloatingPointRange F → Outcome
  apply_floating_point_range name value range =
      let min_value =
        if lt range.to_value range.from_value then range.to_value else range.from_value in
      let max_value =
        if lt range.from_value range.to_value then range.to_value else range.from_value in
      let distance_int_steps = round (div (sub value min_value) range.step) in
      if is_close value min_value || is_close value max_value
      then successful
      else if not (lt min_value value && lt value max_value)
      then failed (out_of_range name)
      else if not (is_zero range.step)
          && not (is_close (add min_value (mul (of_int distance_int_steps) range.step)) value)
      then failed (not_a_step name)
      else successful

  -- A parameter of type DOUBLE has a float for its value.
  unfoldable pub float_range : String → Value F → FloatingPointRange F → Outcome
  float_range name (Value.float x) range = apply_floating_point_range name x range
  float_range name _ range = successful

  unfoldable pub apply_ranges :
      ParameterType → List IntegerRange → List (FloatingPointRange F) → Parameter F → Outcome
  apply_ranges integer (r ∷ _) _ p = apply_integer_range p.name (as_int p.value) r
  apply_ranges double _ (r ∷ _) p = float_range p.name p.value r
  apply_ranges _ _ _ p = successful

  -- The checks of the type, and what they leave in the descriptor.
  unfoldable pub apply_type : Bool → Parameter F → Descriptor F → Outcome × Descriptor F
  apply_type declared p d =
      if d.dynamic_typing
      then (
        apply_ranges p.type_ d.integer_range d.floating_point_range p,
        record d { type_ = p.type_ },
      )
      else if declared && type_eq p.type_ not_set
      then (failed static_undeclared, d)
      else if not (type_eq p.type_ not_set) && not (type_eq p.type_ d.type_)
      then (failed (wrong_type d.type_ p.type_), d)
      else (apply_ranges p.type_ d.integer_range d.floating_point_range p, d)

  unfoldable pub apply_descriptor :
      Dict String (Parameter F) → Parameter F → Descriptor F → Bool → Outcome × Descriptor F
  apply_descriptor parameters p descriptor check_read_only =
      let d : Descriptor F = record descriptor { name = p.name } in
      if check_read_only && d.read_only
      then (failed (read_only_parameter p.name), d)
      else apply_type (is_some (Dict.get parameters p.name)) p d

  -- The body of the loop.
  unfoldable pub apply_one :
      Dict String (Parameter F)
      → Bool
      → Parameter F
      → Dict String (Descriptor F)
      → Outcome × Dict String (Descriptor F)
  apply_one parameters check_read_only p descriptors = elim (Dict.get descriptors p.name) [
    | none ↦ (successful, descriptors)
    | some d ↦
        let (outcome, d') = apply_descriptor parameters p d check_read_only in
        (outcome, Dict.set descriptors p.name d')
  ]

  unfoldable pub apply_descriptors :
      Dict String (Parameter F)
      → List (Parameter F)
      → Dict String (Descriptor F)
      → Bool
      → Outcome × Dict String (Descriptor F)
  apply_descriptors parameters [] descriptors check_read_only = (successful, descriptors)
  apply_descriptors parameters (p ∷ ps) descriptors check_read_only =
      let (outcome, descriptors') = apply_one parameters check_read_only p descriptors in
      elim outcome [
        | failed r ↦ (failed r, descriptors')
        | successful ↦ apply_descriptors parameters ps descriptors' check_read_only
      ]
