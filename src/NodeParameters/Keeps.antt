-- ===== src/NodeParameters/Keeps.antt =====
-- The operations on a node's parameters (rclpy/rclpy/node.py) as steps, and well-formedness.
use rclpy.Prelude.{
  ℕ, ◌≡◌, inl, inr, String, Bool, not, Option, none, some, List, [], ◌∷◌, string_eq, Bool-cases,
  Option-cases, Result-cases, any, all, length, ◌++◌, Distinct,
}
use rclpy.Prelude.Int.{ℤ}
use text.Mathlib.Text.{◌==◌ as str_eq}
use rclpy.Dict
use rclpy.Dict.{Dict, is_some}
use rclpy.Parameter.{ParameterType, Parameter, Value}
use rclpy.NodeParameters.{
  Outcome, successful, failed, Descriptor, Node, Callback, undeclare_parameter,
}
use rclpy.NodeParameters.Apply.{FloatOps}
use rclpy.NodeParameters.Invariant.{IsValid, IsValidAt-del}
use rclpy.NodeParameters.Stores.{set_own-IsValid, set_given-IsValid}
use rclpy.NodeParameters.Set.{
  check_undeclared_parameters, set_declared, set_modified, set_given, set_parameters_atomically,
  set_parameters,
}
use rclpy.NodeParameters.Declare.{
  Declaration, declare_tuples, declare_parameter_common, declare_each, declare_fresh,
  declared_names, declare_parameters,
}
use rclpy.NodeParameters.Descriptors.{set_descriptor}
use rclpy.NodeParameters.Redescribed.{set_descriptor-IsValid}

module _ {F : Type 0} (ops : FloatOps F) where
  undeclare-IsValid :
      (name : String) (self : Node F)
      → IsValid ops self
      → IsValid ops (undeclare_parameter name self).1
  unfolding undeclare_parameter
  undeclare-IsValid name self v = elim (Option-cases (Dict.get self.parameters name)) [
    | inl e ↦ rw (e, undeclare_parameter) v
    | inr (p, e) ↦ elim (Option-cases (Dict.get self.descriptors name)) [
      | inl e' ↦ rw (e, undeclare_parameter) (rw e' v)
      | inr (d, e') ↦ elim (Bool-cases d.read_only) [
        | inl r ↦ rw (e, undeclare_parameter) (rw e' (rw r v))
        | inr r ↦
            rw (e, undeclare_parameter)
              (rw e' (rw r (IsValidAt-del ops self.parameters self.descriptors v name)))
      ]
    ]
  ]

  set_declared-IsValid :
      (ps : List (Parameter F)) (self : Node F)
      → IsValid ops self
      → IsValid ops (set_declared ops ps self).1
  unfolding set_declared
  set_declared-IsValid ps self v = elim (Option-cases (check_undeclared_parameters self ps)) [
    | inl e ↦ rw (e, set_declared) (set_own-IsValid ops ps self v)
    | inr (x, e) ↦ rw (e, set_declared) v
  ]

  set_modified-IsValid :
      (ps : List (Parameter F)) (o : Option (List (Parameter F))) (self : Node F)
      → IsValid ops self
      → IsValid ops (set_modified ops ps o self).1
  unfolding set_modified
  set_modified-IsValid ps none self v = set_declared-IsValid ps self v
  set_modified-IsValid ps (some []) self v = v
  set_modified-IsValid ps (some (q ∷ qs)) self v = set_declared-IsValid (q ∷ qs) self v

  atomically-IsValid :
      (ps : List (Parameter F)) (self : Node F)
      → IsValid ops self
      → IsValid ops (set_parameters_atomically ops ps self).1
  unfolding set_parameters_atomically
  atomically-IsValid ps self v = set_modified-IsValid ps _ self v

  set_parameters-IsValid :
      (ps : List (Parameter F)) (self : Node F)
      → IsValid ops self
      → IsValid ops (set_parameters ops ps self).1
  unfolding set_parameters
  set_parameters-IsValid [] self v = v
  set_parameters-IsValid (p ∷ ps) self v =
      let (r, self') = set_parameters_atomically ops (p ∷ []) self in
      let v' : IsValid ops self' = atomically-IsValid (p ∷ []) self v in
      elim (Result-cases r) [
        | inl (o, e) ↦ rw (e, set_parameters) (set_parameters-IsValid ps self' v')
        | inr (x, e) ↦ rw (e, set_parameters) v'
      ]

  each-IsValid :
      (ps : List (Parameter F)) (ds : Dict String (Descriptor F)) (self : Node F)
      → IsValid ops self
      → IsValid ops (declare_each ops ps ds self).1
  unfolding declare_each
  each-IsValid [] ds self v = v
  each-IsValid (p ∷ ps) ds self v =
      let (r, self') = set_given ops ds (p ∷ []) self in
      let v' : IsValid ops self' = set_given-IsValid ops ds (p ∷ []) self v in
      elim (Result-cases r) [
        | inr (x, e) ↦ rw (e, declare_each) v'
        | inl ((failed reason, ds'), e) ↦ rw (e, declare_each) v'
        | inl ((successful, ds'), e) ↦ rw (e, declare_each) (each-IsValid ps ds' self' v')
      ]

  common-IsValid :
      (ps : List (Parameter F)) (ds : Dict String (Descriptor F)) (self : Node F)
      → IsValid ops self
      → IsValid ops (declare_parameter_common ops ps ds self).1
  unfolding declare_parameter_common
  common-IsValid ps ds self v = elim (Bool-cases (all (λ p. is_some (Dict.get ds p.name)) ps)) [
    | inl e ↦ rw e (each-IsValid ps ds self v)
    | inr e ↦ rw e v
  ]

  fresh-IsValid :
      (ps : List (Parameter F)) (ds : Dict String (Descriptor F)) (self : Node F)
      → IsValid ops self
      → IsValid ops (declare_fresh ops ps ds self).1
  unfolding declare_fresh
  fresh-IsValid ps ds self v =
      elim (Bool-cases (any (λ name. not (str_eq name "")) (declared_names self ps))) [
        | inl e ↦ rw e v
        | inr e ↦ rw e (common-IsValid ps ds self v)
      ]

  declare-IsValid :
      (namespace : String) (ts : List (Declaration F)) (ignore : Bool) (self : Node F)
      → IsValid ops self
      → IsValid ops (declare_parameters ops namespace ts ignore self).1
  unfolding declare_parameters
  declare-IsValid namespace ts ignore self v =
      elim (Result-cases (declare_tuples self ignore namespace ts Dict.empty)) [
        | inr (x, e) ↦ rw (e, declare_parameters) v
        | inl ((ps, ds), e) ↦ rw (e, declare_parameters) (fresh-IsValid ps ds self v)
      ]

  -- What can happen to a node's parameters: the operations, whether they return or raise, changes of
  -- the lists of callbacks, and the passing of time.
  -- The numbers are those of the descriptor objects that the caller hands over: in the code the node stores
  -- these objects themselves and writes to them later.
  pub data Step : List ℕ → Node F → Node F → Type 0 where
    declare :
        (self : Node F) (objects : List ℕ) (namespace : String) (ts : List (Declaration F))
        (ignore : Bool)
        → length objects ≡ length ts
        → Step objects self (declare_parameters ops namespace ts ignore self).1
    undeclare : (self : Node F) (name : String) → Step [] self (undeclare_parameter name self).1
    set : (self : Node F) (ps : List (Parameter F)) → Step [] self (set_parameters ops ps self).1
    set_atomically :
        (self : Node F) (ps : List (Parameter F))
        → Step [] self (set_parameters_atomically ops ps self).1
    describe :
        (self : Node F) (object : ℕ) (name : String) (d : Descriptor F)
        (value : Option (ParameterType × Value F))
        → Step (object ∷ []) self (set_descriptor ops name d value self).1
    register_pre :
        (self : Node F) (cs : List (Callback (List (Parameter F)) (List (Parameter F))))
        → Step [] self (record self { pre_set_parameters_callbacks = cs })
    register_on :
        (self : Node F) (cs : List (Callback (List (Parameter F)) (Option Outcome)))
        → Step [] self (record self { on_set_parameters_callbacks = cs })
    register_post :
        (self : Node F) (cs : List ℕ)
        → Step [] self (record self { post_set_parameters_callbacks = cs })
    tick : (self : Node F) (now : ℤ) → Step [] self (record self { now = now })

  -- What a node comes to, and the descriptor objects that it was handed; no object is handed over twice.
  pub data Reach (self : Node F) : List ℕ → Node F → Type 0 where
    here : Reach self [] self
    next :
        {used objects : List ℕ} {t u : Node F}
        → Reach self used t
        → Distinct (used ++ objects)
        → Step objects t u
        → Reach self (used ++ objects) u

  -- One step keeps the parameters well formed.
  pub Step-IsValid :
      {objects : List ℕ} {t u : Node F} → Step objects t u → IsValid ops t → IsValid ops u
  Step-IsValid (declare self objects namespace ts ignore e) v =
      declare-IsValid namespace ts ignore self v
  Step-IsValid (undeclare self name) v = undeclare-IsValid name self v
  Step-IsValid (set self ps) v = set_parameters-IsValid ps self v
  Step-IsValid (set_atomically self ps) v = atomically-IsValid ps self v
  Step-IsValid (describe self object name d value) v =
      set_descriptor-IsValid ops name d value self v
  Step-IsValid (register_pre self cs) v = v
  Step-IsValid (register_on self cs) v = v
  Step-IsValid (register_post self cs) v = v
  Step-IsValid (tick self now) v = v
