-- ===== src/NodeParameters/Descriptors.antt =====
-- The descriptors of a node (rclpy/rclpy/node.py): describe_parameters, set_descriptor and
-- _apply_descriptor_and_set.
use rclpy.Prelude.{
  String, Bool, false, not, Option, none, some, List, [], ◌∷◌, Result, ok, err, if◌then◌else◌,
  string_eq, ◌>>=◌,
}
use rclpy.Dict
use rclpy.Dict.{Dict}
use rclpy.Parameter.{ParameterType, Parameter, Value}
use rclpy.NodeParameters.{
  Outcome, successful, failed, Exception, not_declared, immutable, invalid_value, Descriptor, Node,
  Action, has_parameter, get_parameter, describe_parameter,
}
use rclpy.NodeParameters.Apply.{FloatOps, apply_descriptor}

module _ {F : Type 0} where
  unfoldable pub describe_parameters : Node F → List String → Result Exception (List (Descriptor F))
  describe_parameters self [] = ok []
  describe_parameters self (name ∷ names) = do
    d ← describe_parameter self name
    ds ← describe_parameters self names
    ok (d ∷ ds)

  -- `Parameter.from_parameter_msg` of a message with this name and, if it is there, this value; the
  -- fields of a message pass the check of the parameter's constructor.
  abbrev pub alternative_parameter :
      String → Parameter F → Option (ParameterType × Value F) → Parameter F
  alternative_parameter name current none = current
  alternative_parameter name current (some (type_, value)) = record {
    name = name;
    type_ = type_;
    value = value;
  }

  -- The end of `set_descriptor`.
  unfoldable pub keep_descriptor : String → Descriptor F → Action F (Parameter F)
  keep_descriptor name d self =
      let self' : Node F = record self { descriptors = Dict.set self.descriptors name d } in
      (get_parameter self' name, self')

module _ {F : Type 0} (ops : FloatOps F) where
  -- With a descriptor, which is written to.
  unfoldable pub apply_descriptor_and_set :
      Parameter F → Descriptor F → Bool → Node F → (Outcome × Descriptor F) × Node F
  apply_descriptor_and_set p d check_read_only self =
      let result = apply_descriptor ops self.parameters p d check_read_only in
      elim result.0 [
        | failed _ ↦ (result, self)
        | successful ↦ (result, record self { parameters = Dict.set self.parameters p.name p })
      ]

  -- What follows the second application, of the alternative parameter.
  unfoldable pub after_alternative :
      String → (Outcome × Descriptor F) × Node F → Result Exception (Parameter F) × Node F
  unfolding keep_descriptor
  after_alternative name ((failed reason, d), self) = (err (invalid_value name reason), self)
  after_alternative name ((successful, d), self) = keep_descriptor name d self

  -- What follows the first application, of the parameter that is there.
  unfoldable pub after_current :
      String
      → Parameter F
      → (Outcome × Descriptor F) × Node F
      → Result Exception (Parameter F) × Node F
  unfolding apply_descriptor_and_set after_alternative
  after_current name alternative ((failed _, d), self) =
      after_alternative name (apply_descriptor_and_set alternative d false self)
  after_current name alternative ((successful, d), self) = keep_descriptor name d self

  unfoldable pub set_descriptor :
      String → Descriptor F → Option (ParameterType × Value F) → Action F (Parameter F)
  unfolding describe_parameter get_parameter apply_descriptor_and_set after_current
  set_descriptor name d alternative_value self =
      if not (has_parameter self name)
      then (if not self.allow_undeclared_parameters
          then (err (not_declared (name ∷ [])), self)
          else (get_parameter self name, self))
      else elim (describe_parameter self name) [
        | err x ↦ (err x, self)
        | ok old ↦
            if old.read_only then (err (immutable name), self) else elim (get_parameter self name) [
              | err x ↦ (err x, self)
              | ok current ↦
                  after_current name (alternative_parameter name current alternative_value)
                    (apply_descriptor_and_set current d false self)
            ]
      ]
