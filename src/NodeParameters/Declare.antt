-- ===== src/NodeParameters/Declare.antt =====
-- Declaring parameters: `declare_parameters`, `declare_parameter`, `_declare_parameter_common`.
-- Each descriptor object is taken to be used for one parameter only.
use Prim.Native.String.{◌++◌ as str_append}
use text.Mathlib.Text.{◌==◌ as str_eq, starts_with}
use rclpy.Prelude.{
  String, Bool, true, false, not, Option, none, some, List, [], ◌∷◌, map, keep, Result, ok, err,
  ◌>>=◌, if◌then◌else◌, string_eq, any, all,
}
use rclpy.Dict
use rclpy.Dict.{Dict, is_some}
use rclpy.Parameter
use rclpy.Parameter.{ParameterType, not_set, type_eq, Parameter, Value, null, from_parameter_value}
use rclpy.NodeParameters.{
  Reason, wrong_type, user, successful, failed, Exception, already_declared, invalid_name,
  invalid_type, invalid_value, type_error, value_error, assertion_error, key_error, Descriptor,
  default_descriptor, Node, Action, has_parameter,
}
use rclpy.NodeParameters.Apply.{FloatOps}
use rclpy.NodeParameters.Set.{set_given}

-- The second element of a tuple: a value, a type, or a message with a value of some type.
pub data Second (F : Type 0) : Type 0 where
  of_value : Value F → Second F
  of_type : ParameterType → Second F
  of_message : ParameterType → Second F

-- A tuple of one, two or three elements.
pub data Declaration (F : Type 0) : Type 0 where
  only_name : String → Declaration F
  with_value : String → Second F → Declaration F
  with_descriptor : String → Second F → Descriptor F → Declaration F

-- The exceptions of `Parameter`, raised through the node.
abbrev pub raised : Parameter.Error → Exception
raised Parameter.type_error = type_error
raised Parameter.value_error = value_error

abbrev pub lift_parameter : {A : Type 0} → Result Parameter.Error A → Result Exception A
lift_parameter (ok a) = ok a
lift_parameter (err e) = err (raised e)

-- `result.reason.startswith('Wrong parameter type')`
abbrev is_wrong_type : Reason → Bool
is_wrong_type (wrong_type _ _) = true
is_wrong_type (user reason) = starts_with reason "Wrong parameter type"
is_wrong_type _ = false

module _ {F : Type 0} where
  -- The value to declare, and the descriptor with the type that it fixes; a message is left for the
  -- test behind the overrides.
  unfoldable pub typed_descriptor :
      Second F → Descriptor F → Result Exception (Option (Value F) × Descriptor F)
  typed_descriptor (of_type t) d =
      if type_eq t not_set
      then err value_error
      else if d.dynamic_typing
      then err value_error
      else ok (some null, record d { type_ = t })
  typed_descriptor (of_message t) d =
      if not d.dynamic_typing
      then (if type_eq t not_set then err value_error else ok (none, record d { type_ = t }))
      else ok (none, d)
  typed_descriptor (of_value v) d =
      if not d.dynamic_typing
      then (do
        t ← lift_parameter (from_parameter_value v)
        if type_eq t not_set then err value_error else ok (some v, record d { type_ = t }))
      else ok (some v, d)

  -- `self._parameter_overrides[name].value`, if it is to be used.
  abbrev overridden : Node F → Bool → String → Option (Value F) → Option (Value F)
  overridden self ignore_override name value =
      if ignore_override
      then value
      else elim (Dict.get self.parameter_overrides name) [ none ↦ value | some p ↦ some p.value ]

  -- One round of the loop, behind the tests on the tuple's shape.
  unfoldable pub declare_one :
      Node F
      → Bool
      → String
      → String
      → Second F
      → Descriptor F
      → Result Exception (Parameter F × Descriptor F)
  declare_one self ignore_override namespace name second descriptor =
      let full = if str_eq namespace "" then name else str_append namespace (str_append "." name) in
      if str_eq full "" then err (invalid_name full) else do
        typed ← typed_descriptor second descriptor
        value ← (elim (overridden self ignore_override full typed.0) [
          | none ↦ err value_error
          | some v ↦ ok v
        ])
        p ← lift_parameter (Parameter.new full none value)
        ok (p, typed.1)

  unfoldable pub declare_tuple :
      Node F → Bool → String → Declaration F → Result Exception (Parameter F × Descriptor F)
  declare_tuple self ignore namespace (only_name name) =
      let full = if str_eq namespace "" then name else str_append namespace (str_append "." name) in
      if str_eq full "" then err (invalid_name full) else err type_error
  declare_tuple self ignore namespace (with_value name second) =
      declare_one self ignore namespace name second default_descriptor
  declare_tuple self ignore namespace (with_descriptor name second d) =
      declare_one self ignore namespace name second d

  -- The loop: the parameters in order, and the descriptors by name.
  unfoldable pub declare_tuples :
      Node F
      → Bool
      → String
      → List (Declaration F)
      → Dict String (Descriptor F)
      → Result Exception (List (Parameter F) × Dict String (Descriptor F))
  declare_tuples self ignore namespace [] ds = ok ([], ds)
  declare_tuples self ignore namespace (t ∷ ts) ds = do
    first ← declare_tuple self ignore namespace t
    rest ← declare_tuples self ignore namespace ts (Dict.set ds first.0.name first.1)
    ok (first.0 ∷ rest.0, rest.1)

  unfoldable pub declared_names : Node F → List (Parameter F) → List String
  declared_names self ps = map (λ p. p.name) (keep (λ p. has_parameter self p.name) ps)

  unfoldable pub refusal : Parameter F → Reason → Dict String (Descriptor F) → Exception
  refusal p reason descriptors =
      if is_wrong_type reason
      then (elim (Dict.get descriptors p.name) [
        | some d ↦ invalid_type p.name d.type_
        | none ↦ key_error
      ])
      else invalid_value p.name reason

module _ {F : Type 0} (ops : FloatOps F) where
  unfoldable pub declare_each :
      List (Parameter F) → Dict String (Descriptor F) → Action F (Unit {0})
  declare_each [] descriptors self = (ok tt, self)
  declare_each (p ∷ ps) descriptors self =
      let (r, self') = set_given ops descriptors (p ∷ []) self in
      elim r [
        | err e ↦ (err e, self')
        | ok (failed reason, descriptors') ↦ (err (refusal p reason descriptors'), self')
        | ok (successful, descriptors') ↦ declare_each ps descriptors' self'
      ]

  unfoldable pub declare_parameter_common :
      List (Parameter F) → Dict String (Descriptor F) → Action F (Unit {0})
  declare_parameter_common ps descriptors self =
      if not (all (λ p. is_some (Dict.get descriptors p.name)) ps)
      then (err assertion_error, self)
      else declare_each ps descriptors self

  -- Behind the loop: nothing may be declared already. The answer is read from the node, and a
  -- parameter that was just declared is there.
  unfoldable pub declare_fresh :
      List (Parameter F) → Dict String (Descriptor F) → Action F (List (Option (Parameter F)))
  declare_fresh ps descriptors self =
      if any (λ name. not (str_eq name "")) (declared_names self ps)
      then (err (already_declared (declared_names self ps)), self)
      else let (r, self') = declare_parameter_common ps descriptors self in
        (
          elim r [
            | err e ↦ err e
            | ok _ ↦ ok (map (λ (p : Parameter F). Dict.get self'.parameters p.name) ps)
          ],
          self',
        )

  unfoldable pub declare_parameters :
      String → List (Declaration F) → Bool → Action F (List (Option (Parameter F)))
  declare_parameters namespace declarations ignore_override self =
      elim (declare_tuples self ignore_override namespace declarations Dict.empty) [
        | err e ↦ (err e, self)
        | ok (ps, descriptors) ↦ declare_fresh ps descriptors self
      ]

  -- With neither a value nor a descriptor the tuple has one element, which is refused.
  unfoldable pub declare_parameter :
      String
      → Option (Second F)
      → Option (Descriptor F)
      → Bool
      → Action F (List (Option (Parameter F)))
  declare_parameter name none none ignore_override =
      declare_parameters "" (only_name name ∷ []) ignore_override
  declare_parameter name (some value) none ignore_override =
      declare_parameters "" (with_descriptor name value default_descriptor ∷ []) ignore_override
  declare_parameter name none (some d) ignore_override =
      declare_parameters "" (with_descriptor name (of_value null) d ∷ []) ignore_override
  declare_parameter name (some value) (some d) ignore_override =
      declare_parameters "" (with_descriptor name value d ∷ []) ignore_override
