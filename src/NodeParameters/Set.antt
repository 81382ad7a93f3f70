-- ===== src/NodeParameters/Set.antt =====
-- Setting parameters: `_set_parameters_atomically_common` and the methods that reach it, the checks
-- before it, the published event and the callbacks.
use Prim.Native.String.{◌++◌ as str_append}
use text.Mathlib.Text.{◌==◌ as str_eq}
use rclpy.Prelude.{
  String, Bool, true, false, ◌&&◌, not, Option, none, some, List, [], ◌∷◌, ◌++◌, map, all, keep,
  Result, ok, err, if◌then◌else◌, string_eq,
}
use rclpy.Dict
use rclpy.Dict.{Dict, is_some}
use rclpy.Parameter.{not_set, type_eq, Parameter}
use rclpy.NodeParameters.{
  invalid_return, empty_list, Outcome, successful, failed, Exception, not_declared, assertion_error,
  Descriptor, default_descriptor, ParameterEvent, Callback, Node, Action, has_parameter,
  get_parameter_or,
}
use rclpy.NodeParameters.Apply.{FloatOps, apply_descriptors}

-- The generator is consumed up to the first name that is not empty; `none` if there is no such.
unfoldable pub any_rest : List String → Option (List String)
any_rest [] = none
any_rest (name ∷ names) = if str_eq name "" then any_rest names else some names

module _ {F : Type 0} where
  unfoldable pub undeclared_parameters : Node F → List (Parameter F) → List String
  undeclared_parameters self ps = map (λ p. p.name) (keep (λ p. not (has_parameter self p.name)) ps)

  -- What is raised, if anything: `list(undeclared_parameters)` goes on where `any` stopped.
  unfoldable pub check_undeclared_parameters : Node F → List (Parameter F) → Option Exception
  check_undeclared_parameters self ps =
      if not self.allow_undeclared_parameters
      then elim (any_rest (undeclared_parameters self ps)) [
        | none ↦ none
        | some rest ↦ some (not_declared rest)
      ]
      else none

  -- The loop over the on set callbacks.
  unfoldable pub run_on_set :
      List (Callback (List (Parameter F)) (Option Outcome)) → List (Parameter F) → Outcome
  run_on_set [] ps = successful
  run_on_set (c ∷ cs) ps =
      let rest = run_on_set cs ps in
      elim (c.call ps) [
        | none ↦ failed invalid_return
        | some (failed r) ↦ failed r
        | some successful ↦ rest
      ]

  -- The lists that the pre set callbacks return, one behind the other.
  unfoldable pub extend_all :
      List (Callback (List (Parameter F)) (List (Parameter F)))
      → List (Parameter F)
      → List (Parameter F)
  extend_all [] ps = []
  extend_all (c ∷ cs) ps = c.call ps ++ extend_all cs ps

  -- `none` where no such callback is registered.
  unfoldable pub call_pre_set :
      List (Callback (List (Parameter F)) (List (Parameter F)))
      → List (Parameter F)
      → Option (List (Parameter F))
  call_pre_set [] ps = none
  call_pre_set (c ∷ cs) ps = some (extend_all (c ∷ cs) ps)

  abbrev pub full_name : Node F → String
  full_name self =
      if str_eq self.namespace "/"
      then str_append self.namespace self.name
      else str_append self.namespace (str_append "/" self.name)

  -- The new descriptors: those that were passed, or a dynamic one where none is there. The code stores the object
  -- that was passed; here it is a copy, so that an object must not be passed for two parameters.
  unfoldable pub store_descriptor :
      Option (Dict String (Descriptor F))
      → String
      → Dict String (Descriptor F)
      → Dict String (Descriptor F)
  store_descriptor (some given) name ds = elim (Dict.get given name) [
    | some d ↦ Dict.set ds name d
    | none ↦ ds
  ]
  store_descriptor none name ds =
      if is_some (Dict.get ds name)
      then ds
      else Dict.set ds name (record default_descriptor { dynamic_typing = true })

  -- The body of the loop that stores.
  unfoldable pub store_one :
      Option (Dict String (Descriptor F))
      → Bool
      → Parameter F
      → Node F × ParameterEvent F
      → Node F × ParameterEvent F
  store_one given allow_not_set_type p (self, event) =
      if not allow_not_set_type && type_eq p.type_ not_set
      then (
        record self {
          parameters = Dict.del self.parameters p.name;
          descriptors = Dict.del self.descriptors p.name;
        },
        record event { deleted_parameters = event.deleted_parameters ++ p ∷ [] },
      )
      else (
        record self {
          parameters = Dict.set self.parameters p.name p;
          descriptors = store_descriptor given p.name self.descriptors;
        },
        if type_eq (get_parameter_or self p.name none).type_ not_set
            then record event { new_parameters = event.new_parameters ++ p ∷ [] }
            else record event { changed_parameters = event.changed_parameters ++ p ∷ [] },
      )

  unfoldable pub store_all :
      Option (Dict String (Descriptor F))
      → Bool
      → List (Parameter F)
      → Node F × ParameterEvent F
      → Node F × ParameterEvent F
  store_all given allow [] s = s
  store_all given allow (p ∷ ps) s = store_all given allow ps (store_one given allow p s)

  unfoldable pub new_event : Node F → ParameterEvent F
  new_event self = record {
    node = full_name self;
    stamp = self.now;
    new_parameters = [];
    changed_parameters = [];
    deleted_parameters = [];
  }

  -- Converting a parameter into a message and publishing the event are taken to succeed: in the code an exception of
  -- these leaves stored what was stored before.
  -- The event, its publication and the post set callbacks, once all checks have passed.
  unfoldable pub commit :
      Option (Dict String (Descriptor F)) → Bool → List (Parameter F) → Node F → Node F
  commit given allow ps self =
      let (stored, event) = store_all given allow ps (self, new_event self) in
      record stored {
        published =
            if stored.has_event_publisher then stored.published ++ event ∷ [] else stored.published;
        post_calls = stored.post_calls ++ map (λ c. (c, ps)) stored.post_set_parameters_callbacks;
      }

  -- Behind the descriptors' outcome: the on set callbacks, then the commit.
  unfoldable pub set_checked :
      Option (Dict String (Descriptor F))
      → Bool
      → List (Parameter F)
      → Outcome
      → Node F
      → Outcome × Node F
  set_checked given allow ps (failed r) self = (failed r, self)
  set_checked given allow ps successful self =
      elim (run_on_set self.on_set_parameters_callbacks ps) [
        | failed r ↦ (failed r, self)
        | successful ↦ (successful, commit given allow ps self)
      ]

module _ {F : Type 0} (ops : FloatOps F) where
  -- With the node's own descriptors, read-only parameters are refused.
  unfoldable pub set_own : List (Parameter F) → Node F → Outcome × Node F
  set_own ps self =
      let (outcome, applied) = apply_descriptors ops self.parameters ps self.descriptors true in
      set_checked none false ps outcome (record self { descriptors = applied })

  -- With new descriptors; each parameter must have one.
  unfoldable pub set_given :
      Dict String (Descriptor F)
      → List (Parameter F)
      → Node F
      → Result Exception (Outcome × Dict String (Descriptor F)) × Node F
  set_given given ps self =
      if not (all (λ p. is_some (Dict.get given p.name)) ps)
      then (err assertion_error, self)
      else let (outcome, applied) = apply_descriptors ops self.parameters ps given false in
        let (outcome', self') = set_checked (some applied) true ps outcome self in
        (ok (outcome', applied), self')

  unfoldable pub set_declared : List (Parameter F) → Action F Outcome
  set_declared ps self = elim (check_undeclared_parameters self ps) [
    | some e ↦ (err e, self)
    | none ↦ let (outcome, self') = set_own ps self in (ok outcome, self')
  ]

  -- With the list that the pre set callbacks made, if there are any.
  unfoldable pub set_modified : List (Parameter F) → Option (List (Parameter F)) → Action F Outcome
  set_modified ps none self = set_declared ps self
  set_modified ps (some []) self = (ok (failed empty_list), self)
  set_modified ps (some (q ∷ qs)) self = set_declared (q ∷ qs) self

  unfoldable pub set_parameters_atomically : List (Parameter F) → Action F Outcome
  set_parameters_atomically ps self =
      set_modified ps (call_pre_set self.pre_set_parameters_callbacks ps) self

  -- One parameter after the other; what was set before an exception stays set.
  unfoldable pub set_parameters : List (Parameter F) → Action F (List Outcome)
  set_parameters [] self = (ok [], self)
  set_parameters (p ∷ ps) self =
      let (r, self') = set_parameters_atomically (p ∷ []) self in
      elim r [
        | err e ↦ (err e, self')
        | ok outcome ↦
            let (r', self'') = set_parameters ps self' in
            (elim r' [ err e ↦ err e | ok outcomes ↦ ok (outcome ∷ outcomes) ], self'')
      ]
