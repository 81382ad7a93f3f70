-- ===== src/NodeParameters/Loop.antt =====
-- The loop that stores parameters (rclpy/rclpy/node.py, `_set_parameters_atomically_common`) and the dictionaries.
use rclpy.Prelude.{
  ◌≡◌, inl, inr, refl, ap, ◌∙◌, String, Bool, false, Option, none, some, All, List, [], ◌∷◌,
  string_eq, ◌=?◌, if◌then◌else◌, Bool-cases, Option-cases, arith,
}
use rclpy.Dict
use rclpy.Dict.{Dict}
use rclpy.Parameter.{not_set, type_eq, Parameter}
use rclpy.NodeParameters.{Descriptor, Node, ParameterEvent}
use rclpy.NodeParameters.Set.{store_descriptor, store_one, store_all}

-- The entry of a name after the parameters of a list were stored: the last one of that name counts,
-- and one without a value removes the entry.
abbrev pub stored :
    {F : Type 0} → String → List (Parameter F) → Option (Parameter F) → Option (Parameter F)
stored n [] o = o
stored n (p ∷ ps) o =
    stored n ps (if p.name =? n then (if type_eq p.type_ not_set then none else some p) else o)

module _ {F : Type 0} where
  get-store_one :
      (n : String) (p : Parameter F) (self : Node F) (event : ParameterEvent F)
      → Dict.get (store_one none false p (self, event)).0.parameters n ≡ (
          if p.name =? n
          then (if type_eq p.type_ not_set then none else some p)
          else Dict.get self.parameters n)
  unfolding store_one
  get-store_one n p self event = elim (Bool-cases (type_eq p.type_ not_set)) [
    | inl e ↦ rw e (Dict.get-del self.parameters p.name n)
    | inr e ↦ rw e (Dict.get-set self.parameters p.name n p)
  ]

  pub get-store_all :
      (n : String) (ps : List (Parameter F)) (self : Node F) (event : ParameterEvent F)
      → Dict.get (store_all none false ps (self, event)).0.parameters n
        ≡ stored n ps (Dict.get self.parameters n)
  unfolding store_all
  get-store_all n [] self event = refl
  get-store_all n (p ∷ ps) self event =
      let (self', event') = store_one none false p (self, event) in
      get-store_all n ps self' event' ∙ ap (stored n ps) (get-store_one n p self event)

  -- What the loop leaves alone.
  pub record SameRest (a b : Node F) : Type 0 where
    pub published : b.published ≡ a.published
    pub post_calls : b.post_calls ≡ a.post_calls
    pub publisher : b.has_event_publisher ≡ a.has_event_publisher
    pub callbacks : b.post_set_parameters_callbacks ≡ a.post_set_parameters_callbacks

  store_one-SameRest :
      (given : Option (Dict String (Descriptor F))) (allow : Bool) (p : Parameter F) (self : Node F)
      (event : ParameterEvent F)
      → SameRest self (store_one given allow p (self, event)).0
  unfolding store_one
  store_one-SameRest given allow p self event = ground arith

  pub store_all-SameRest :
      (given : Option (Dict String (Descriptor F))) (allow : Bool) (ps : List (Parameter F))
      (self : Node F) (event : ParameterEvent F)
      → SameRest self (store_all given allow ps (self, event)).0
  unfolding store_all
  store_all-SameRest given allow [] self event = ground arith
  store_all-SameRest given allow (p ∷ ps) self event =
      let (self', event') = store_one given allow p (self, event) in
      ground (
        arith,
        store_one-SameRest given allow p self event,
        store_all-SameRest given allow ps self' event',
      )

module _ {F : Type 0} where
  descriptors-store_one :
      (n : String) (p : Parameter F) (self : Node F) (event : ParameterEvent F)
      → (p.name =? n) ≡ false
      → Dict.get (store_one none false p (self, event)).0.descriptors n
        ≡ Dict.get self.descriptors n
  unfolding store_one store_descriptor
  descriptors-store_one n p self event h = elim (Bool-cases (type_eq p.type_ not_set)) [
    | inl e ↦ rw e (Dict.get-del self.descriptors p.name n ∙ rw h refl)
    | inr e ↦ rw e (elim (Option-cases (Dict.get self.descriptors p.name)) [
      | inl e' ↦ rw e' (Dict.get-set self.descriptors p.name n _ ∙ rw h refl)
      | inr (d, e') ↦ rw e' refl
    ])
  ]

  pub descriptors-store_all :
      (n : String) (ps : List (Parameter F)) (self : Node F) (event : ParameterEvent F)
      → All (λ p. (p.name =? n) ≡ false) ps
      → Dict.get (store_all none false ps (self, event)).0.descriptors n
        ≡ Dict.get self.descriptors n
  unfolding store_all
  descriptors-store_all n [] self event a = refl
  descriptors-store_all n (p ∷ ps) self event a =
      let (self', event') = store_one none false p (self, event) in
      descriptors-store_all n ps self' event' a.1 ∙ descriptors-store_one n p self event a.0

pub stored_other :
    {F : Type 0} (n : String) (ps : List (Parameter F)) (o : Option (Parameter F))
    → All (λ p. (p.name =? n) ≡ false) ps
    → stored n ps o ≡ o
stored_other n [] o a = refl
stored_other n (p ∷ ps) o a = rw a.0 (stored_other n ps o a.1)
