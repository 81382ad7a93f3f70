-- ===== src/NodeParameters/Redescribed.antt =====
-- What becomes of a node whose parameter gets a new descriptor (rclpy/rclpy/node.py, `set_descriptor`).
use rclpy.Prelude.{
  ◌≡◌, ap, ◌⊎◌, inl, inr, refl, sym, subst, String, true, false, ◌||◌, not, Option, none, some, [],
  ◌∷◌, Result, ok, err, arith, string_eq, =?_refl, Bool-cases, Option-cases,
}
use rclpy.Dict
use rclpy.Dict.{Dict, is_some}
use rclpy.Parameter.{ParameterType, not_set, type_eq, Parameter, Value}
use rclpy.NodeParameters.{
  Outcome, successful, failed, Reason, Exception, not_declared, immutable, uninitialized,
  invalid_value, Descriptor, Node, has_parameter, unset, get_parameter, describe_parameter,
}
use rclpy.NodeParameters.Apply.{FloatOps, apply_type, apply_descriptor}
use rclpy.NodeParameters.Fits.{
  SameChecks, SameChecks-refl, SameChecks-trans, Fits, Outcome-cases, apply_descriptor-SameChecks,
  apply_descriptor-Fits,
}
use rclpy.NodeParameters.Invariant.{IsValid, IsValidAt, ValidEntry, absent, present, IsValidAt-set}
use rclpy.NodeParameters.Descriptors.{
  alternative_parameter, keep_descriptor, apply_descriptor_and_set, after_alternative,
  after_current, set_descriptor,
}

alternative_parameter-name :
    {F : Type 0} (name : String) (old : Parameter F) (value : Option (ParameterType × Value F))
    → old.name ≡ name
    → (alternative_parameter name old value).name ≡ name
alternative_parameter-name name old none named = named
alternative_parameter-name name old (some (type_, v)) named = refl

module _ {F : Type 0} (ops : FloatOps F) where
  abbrev stored : Node F → String → Parameter F → Descriptor F → Node F
  stored self name p d = record self {
    parameters = Dict.set self.parameters name p;
    descriptors = Dict.set self.descriptors name d;
  }

  -- The name has a descriptor that is not read-only.
  abbrev pub IsWritable : Node F → String → Type 0
  IsWritable self name =
      (d : Descriptor F) × (Dict.get self.descriptors name ≡ some d) × (d.read_only ≡ false)

  -- The parameter that is there, if it complies, or else the alternative one.
  abbrev pub Chosen :
      String
      → Descriptor F
      → Option (ParameterType × Value F)
      → Node F
      → Parameter F
      → Parameter F
      → Type 0
  Chosen name d value self old p =
      (((apply_descriptor ops self.parameters old d false).0 ≡ successful) × (p ≡ old))
      ⊎ ((reason : Reason) × ((apply_descriptor ops self.parameters old d false).0 ≡ failed reason)
          × (p ≡ alternative_parameter name old value))

  -- How `set_descriptor` can end, as a relation.
  pub data Ends (name : String) (d : Descriptor F) (value : Option (ParameterType × Value F))
      (self : Node F) : Result Exception (Parameter F) × Node F → Type 0 where
    unknown :
        has_parameter self name ≡ false
        → self.allow_undeclared_parameters ≡ false
        → Ends name d value self (err (not_declared (name ∷ [])), self)
    undeclared :
        has_parameter self name ≡ false
        → self.allow_undeclared_parameters ≡ true
        → Ends name d value self (ok (unset name), self)
    read_only :
        (old : Descriptor F)
        → Dict.get self.descriptors name ≡ some old
        → old.read_only ≡ true
        → Ends name d value self (err (immutable name), self)
    without_value :
        (p : Parameter F)
        → Dict.get self.parameters name ≡ some p
        → IsWritable self name
        → p.type_ ≡ not_set
        → Ends name d value self (err (uninitialized name), self)
    refused :
        (p : Parameter F) (reason reason' : Reason)
        → Dict.get self.parameters name ≡ some p
        → IsWritable self name
        → (apply_descriptor ops self.parameters p d false).0 ≡ failed reason
        → (apply_descriptor ops self.parameters
            (alternative_parameter name p value)
            (apply_descriptor ops self.parameters p d false).1
            false).0
          ≡ failed reason'
        → Ends name d value self (err (invalid_value name reason'), self)
    applied :
        (old p : Parameter F) (d' : Descriptor F)
        → Dict.get self.parameters name ≡ some old
        → IsWritable self name
        → Chosen name d value self old p
        → p.name ≡ name
        → SameChecks d d'
        → Fits ops p d'
        → Ends name d value self (ok p, stored self name p d')

  module _ (p : Parameter F) (d : Descriptor F) (self : Node F) where
    set_failed :
        (reason : Reason)
        → (apply_descriptor ops self.parameters p d false).0 ≡ failed reason
        → apply_descriptor_and_set ops p d false self
          ≡ ((failed reason, (apply_descriptor ops self.parameters p d false).1), self)
    unfolding apply_descriptor_and_set
    set_failed reason e =
        rw (e, apply_descriptor_and_set)
          (ap (λ (o : Outcome). ((o, (apply_descriptor ops self.parameters p d false).1), self)) e)

    set_successful :
        (apply_descriptor ops self.parameters p d false).0 ≡ successful
        → apply_descriptor_and_set ops p d false self ≡ (
          (successful, (apply_descriptor ops self.parameters p d false).1),
          record self { parameters = Dict.set self.parameters p.name p },
        )
    unfolding apply_descriptor_and_set
    set_successful e =
        rw (e, apply_descriptor_and_set)
          (ap
            (λ (o : Outcome). (
              (o, (apply_descriptor ops self.parameters p d false).1),
              record self { parameters = Dict.set self.parameters p.name p },
            ))
            e)

    -- A parameter that a descriptor was applied to, where its name is declared, has a value or may
    -- go without one.
    apply_descriptor-answered :
        is_some (Dict.get self.parameters p.name) ≡ true
        → (apply_descriptor ops self.parameters p d false).0 ≡ successful
        → (not (type_eq p.type_ not_set)
            || (apply_descriptor ops self.parameters p d false).1.dynamic_typing)
          ≡ true
    unfolding apply_descriptor apply_type
    apply_descriptor-answered h e = ground arith

  get_parameter-answer :
      (name : String) (p : Parameter F) (d : Descriptor F) (self : Node F)
      → Dict.get self.parameters name ≡ some p
      → Dict.get self.descriptors name ≡ some d
      → (not (type_eq p.type_ not_set) || d.dynamic_typing) ≡ true
      → get_parameter self name ≡ ok p
  unfolding get_parameter
  get_parameter-answer name p d self g k h = ground arith

  keep_descriptor-stored :
      (name : String) (p : Parameter F) (d : Descriptor F) (self : Node F)
      → p.name ≡ name
      → (not (type_eq p.type_ not_set) || d.dynamic_typing) ≡ true
      → keep_descriptor name d (record self { parameters = Dict.set self.parameters p.name p })
        ≡ (ok p, stored self name p d)
  unfolding keep_descriptor
  keep_descriptor-stored name p d self n h =
      subst
        (λ (m : String).
          keep_descriptor name d (record self { parameters = Dict.set self.parameters m p })
          ≡ (ok p, stored self name p d))
        (sym n)
        (ap (λ (r : Result Exception (Parameter F)). (r, stored self name p d))
          (get_parameter-answer name p d (stored self name p d) (rw (Dict.get-set, =?_refl) refl)
            (rw (Dict.get-set, =?_refl) refl) h))

  module _ (name : String) (d : Descriptor F) (value : Option (ParameterType × Value F))
      (self : Node F) (old : Parameter F) (g : Dict.get self.parameters name ≡ some old)
      (named : old.name ≡ name) (writable : IsWritable self name) where
    -- One of the two parameters is applied, maybe with what the other has left in the descriptor.
    applied_end :
        (p : Parameter F) (d1 : Descriptor F)
        → Chosen name d value self old p
        → p.name ≡ name
        → SameChecks d d1
        → (apply_descriptor ops self.parameters p d1 false).0 ≡ successful
        → Ends name d value self (
            keep_descriptor name
              (apply_descriptor ops self.parameters p d1 false).1
              (record self { parameters = Dict.set self.parameters p.name p }))
    applied_end p d1 which n s e =
        let d' = (apply_descriptor ops self.parameters p d1 false).1 in
        let declared : is_some (Dict.get self.parameters p.name) ≡ true =
          subst (λ (m : String). is_some (Dict.get self.parameters m) ≡ true) (sym n) (rw g refl) in
        rw
          (keep_descriptor-stored name p d' self n (apply_descriptor-answered p d1 self declared e))
          (applied old p d' g writable which n
            (SameChecks-trans s (apply_descriptor-SameChecks ops self.parameters p d1 false))
            (apply_descriptor-Fits ops self.parameters p d1 false e))

    after_alternative-end :
        (reason : Reason)
        → (apply_descriptor ops self.parameters old d false).0 ≡ failed reason
        → Ends name d value self (
            after_alternative ops name (
              apply_descriptor_and_set ops
                (alternative_parameter name old value)
                (apply_descriptor ops self.parameters old d false).1
                false
                self))
    unfolding after_alternative
    after_alternative-end reason e =
        let p = alternative_parameter name old value in
        let d1 = (apply_descriptor ops self.parameters old d false).1 in
        elim (Outcome-cases (apply_descriptor ops self.parameters p d1 false).0) [
          | inl k ↦ rw (set_successful p d1 self k) (
              applied_end p d1 (inr (reason, e, refl))
                (alternative_parameter-name name old value named)
                (apply_descriptor-SameChecks ops self.parameters old d false) k)
          | inr (reason', k) ↦
              rw (set_failed p d1 self reason' k) (refused old reason reason' g writable e k)
        ]

    after_current-end : Ends name d value self (
        after_current ops name
          (alternative_parameter name old value)
          (apply_descriptor_and_set ops old d false self))
    unfolding after_current
    after_current-end = elim (Outcome-cases (apply_descriptor ops self.parameters old d false).0) [
      | inl k ↦
          rw (set_successful old d self k)
            (applied_end old d (inl (k, refl)) named (SameChecks-refl d) k)
      | inr (reason, k) ↦ rw (set_failed old d self reason k) (after_alternative-end reason k)
    ]

  entry-name :
      (name : String) (o : Option (Parameter F)) (o' : Option (Descriptor F)) (p : Parameter F)
      → ValidEntry ops name o o'
      → o ≡ some p
      → (p.name ≡ name) × ((d : Descriptor F) × (o' ≡ some d))
  entry-name name none none p absent g = cc
  entry-name name none (some d) p x g = elim x [ ]
  entry-name name (some q) none p x g = elim x [ ]
  entry-name name (some q) (some d) p (present e f) g = (ground (arith, e, g), (d, refl))

  module _ (name : String) (d : Descriptor F) (value : Option (ParameterType × Value F))
      (self : Node F) where
    set_unknown :
        Dict.get self.parameters name ≡ none
        → self.allow_undeclared_parameters ≡ false
        → set_descriptor ops name d value self ≡ (err (not_declared (name ∷ [])), self)
    unfolding set_descriptor
    set_unknown e a = ground arith

    set_undeclared :
        Dict.get self.parameters name ≡ none
        → self.allow_undeclared_parameters ≡ true
        → set_descriptor ops name d value self ≡ (ok (unset name), self)
    unfolding set_descriptor get_parameter
    set_undeclared e a = ground arith

    module _ (p : Parameter F) (old : Descriptor F) (e : Dict.get self.parameters name ≡ some p)
        (k : Dict.get self.descriptors name ≡ some old) where
      set_read_only :
          old.read_only ≡ true → set_descriptor ops name d value self ≡ (err (immutable name), self)
      unfolding set_descriptor describe_parameter
      set_read_only r = ground arith

      set_without_value :
          old.read_only ≡ false
          → (not (type_eq p.type_ not_set) || old.dynamic_typing) ≡ false
          → set_descriptor ops name d value self ≡ (err (uninitialized name), self)
      unfolding set_descriptor describe_parameter get_parameter
      set_without_value r h = ground arith

      set_known :
          old.read_only ≡ false
          → (not (type_eq p.type_ not_set) || old.dynamic_typing) ≡ true
          → set_descriptor ops name d value self
            ≡ after_current ops name
                (alternative_parameter name p value)
                (apply_descriptor_and_set ops p d false self)
      unfolding set_descriptor describe_parameter get_parameter
      set_known r h = ground arith

  pub set_descriptor-Ends :
      (name : String) (d : Descriptor F) (value : Option (ParameterType × Value F)) (self : Node F)
      → IsValid ops self
      → Ends name d value self (set_descriptor ops name d value self)
  set_descriptor-Ends name d value self v = elim (Option-cases (Dict.get self.parameters name)) [
    | inl e ↦ elim (Bool-cases self.allow_undeclared_parameters) [
      | inl a ↦ rw (set_undeclared name d value self e a) (undeclared (rw e refl) a)
      | inr a ↦ rw (set_unknown name d value self e a) (unknown (rw e refl) a)
    ]
    | inr (p, e) ↦
        let (named, (old, k)) = entry-name name _ _ p (v.at name) e in
        elim (Bool-cases old.read_only) [
          | inl r ↦ rw (set_read_only name d value self p old e k r) (read_only old k r)
          | inr r ↦ elim (Bool-cases (not (type_eq p.type_ not_set) || old.dynamic_typing)) [
            | inl h ↦
                rw (set_known name d value self p old e k r h)
                  (after_current-end name d value self p e named (old, k, r))
            | inr h ↦
                rw (set_without_value name d value self p old e k r h)
                  (without_value p e (old, k, r) (ground (arith, h)))
          ]
        ]
  ]

  Ends-IsValid :
      (name : String) (d : Descriptor F) (value : Option (ParameterType × Value F)) (self : Node F)
      (r : Result Exception (Parameter F) × Node F)
      → Ends name d value self r
      → IsValid ops self
      → IsValid ops r.1
  Ends-IsValid name d value self _ (unknown h a) v = v
  Ends-IsValid name d value self _ (undeclared h a) v = v
  Ends-IsValid name d value self _ (read_only old k h) v = v
  Ends-IsValid name d value self _ (without_value p g w h) v = v
  Ends-IsValid name d value self _ (refused p reason reason' g w e k) v = v
  Ends-IsValid name d value self _ (applied old p d' g w which n s f) v =
      subst
        (λ (m : String).
          IsValidAt ops (Dict.set self.parameters m p) (Dict.set self.descriptors m d'))
        n (IsValidAt-set ops self.parameters self.descriptors v p d' f)

  pub set_descriptor-IsValid :
      (name : String) (d : Descriptor F) (value : Option (ParameterType × Value F)) (self : Node F)
      → IsValid ops self
      → IsValid ops (set_descriptor ops name d value self).1
  set_descriptor-IsValid name d value self v =
      Ends-IsValid name d value self _ (set_descriptor-Ends name d value self v) v
