-- ===== src/NodeParameters/ReadOnly.antt =====
-- Read-only parameters (rclpy/rclpy/node.py) while parameters are set.
use rclpy.Prelude.{
  ◌≡◌, inl, inr, refl, sym, ap, ◌∙◌, String, true, false, Option, none, some, List, [], ◌∷◌, All,
  string_eq, ◌=?◌, =?_iff, Bool-cases, Option-cases, Result-cases,
}
use rclpy.Dict
use rclpy.Dict.{Dict}
use rclpy.Parameter.{Parameter}
use rclpy.NodeParameters.{read_only_parameter, successful, failed, Descriptor, Node}
use rclpy.NodeParameters.Apply.{FloatOps, apply_descriptor, apply_one, apply_descriptors}
use rclpy.NodeParameters.Fits.{
  SameEntry, apply_one-SameEntries, apply_descriptors_go, apply_descriptors_stop, Outcome-cases,
  failed≢successful,
}
use rclpy.NodeParameters.Set.{
  check_undeclared_parameters, set_own, set_declared, set_modified, set_parameters_atomically,
  set_parameters,
}
use rclpy.NodeParameters.Loop.{stored_other}
use rclpy.NodeParameters.Atomic.{set_own_cases}

-- The name has a read-only descriptor.
abbrev pub IsReadOnly : {F : Type 0} → Option (Descriptor F) → Type 0
IsReadOnly none = ⊥
IsReadOnly (some d) = d.read_only ≡ true

module _ {F : Type 0} (ops : FloatOps F) where
  IsReadOnly-SameEntry : (a b : Option (Descriptor F)) → SameEntry a b → IsReadOnly a → IsReadOnly b
  IsReadOnly-SameEntry (some a) (some b) s r = s.read_only ∙ r
  IsReadOnly-SameEntry none b s r = absurd r
  IsReadOnly-SameEntry (some a) none s r = absurd s

  module _ (parameters : Dict String (Parameter F)) (n : String) where
    refused :
        (p : Parameter F) (d : Descriptor F)
        → d.read_only ≡ true
        → (apply_descriptor ops parameters p d true).0 ≡ failed (read_only_parameter p.name)
    unfolding apply_descriptor
    refused p d r = rw r

    refused_one :
        (p : Parameter F) (ds : Dict String (Descriptor F))
        → IsReadOnly (Dict.get ds p.name)
        → (apply_one ops parameters true p ds).0 ≡ failed (read_only_parameter p.name)
    unfolding apply_one
    refused_one p ds r = elim (Option-cases (Dict.get ds p.name)) [
      | inl e ↦ absurd (rw e at r)
      | inr (d, e) ↦ rw (e, apply_one) (refused p d (rw e at r))
    ]

    -- A parameter whose check passes is not the read-only one.
    other_name :
        (p : Parameter F) (ds : Dict String (Descriptor F))
        → IsReadOnly (Dict.get ds n)
        → (apply_one ops parameters true p ds).0 ≡ successful
        → (p.name =? n) ≡ false
    other_name p ds r h = elim (Bool-cases (p.name =? n)) [
      | inr e ↦ e
      | inl e ↦
          let r' : IsReadOnly (Dict.get ds p.name) = rw (← (=?_iff p.name n).0 e) at r in
          absurd (failed≢successful _ (sym (refused_one p ds r') ∙ h))
    ]

    others :
        (ps : List (Parameter F)) (ds : Dict String (Descriptor F))
        → IsReadOnly (Dict.get ds n)
        → (apply_descriptors ops parameters ps ds true).0 ≡ successful
        → All (λ p. (p.name =? n) ≡ false) ps
    others [] ds r h = tt
    others (p ∷ ps) ds r h =
        let (outcome, es) = apply_one ops parameters true p ds in
        elim (Outcome-cases outcome) [
          | inr (x, e) ↦ absurd (
              failed≢successful x
                (rw (apply_descriptors_stop ops parameters true p ps ds x e) at h))
          | inl e ↦ (
            other_name p ds r e,
            others ps es
                (IsReadOnly-SameEntry _ _ (apply_one-SameEntries ops parameters true p ds n) r)
                (rw (apply_descriptors_go ops parameters true p ps ds e) at h),
          )
        ]

module _ {F : Type 0} (ops : FloatOps F) (n : String) where
  -- The entry of `n` and its being read-only.
  abbrev Kept : Node F → Node F → Type 0
  Kept a b =
      (Dict.get b.parameters n ≡ Dict.get a.parameters n) × IsReadOnly (Dict.get b.descriptors n)

  Kept-set_own :
      (ps : List (Parameter F)) (self : Node F)
      → IsReadOnly (Dict.get self.descriptors n)
      → Kept self (set_own ops ps self).1
  Kept-set_own ps self r = elim (set_own_cases ops ps self) [
    | inr (_, u) ↦
        (ap (λ d. Dict.get d n) u.parameters, IsReadOnly-SameEntry ops _ _ (u.descriptors n) r)
    | inl (o, e, c) ↦
        let free = others ops self.parameters n ps self.descriptors r o in
        (
          c.parameters n ∙ stored_other n ps _ free,
          IsReadOnly-SameEntry ops _ _ (c.others n free) r,
        )
  ]

  Kept-refl : (self : Node F) → IsReadOnly (Dict.get self.descriptors n) → Kept self self
  Kept-refl self r = (refl, r)

  Kept-set_declared :
      (ps : List (Parameter F)) (self : Node F)
      → IsReadOnly (Dict.get self.descriptors n)
      → Kept self (set_declared ops ps self).1
  unfolding set_declared
  Kept-set_declared ps self r = elim (Option-cases (check_undeclared_parameters self ps)) [
    | inr (x, e) ↦ rw (e, set_declared) (Kept-refl self r)
    | inl e ↦ rw (e, set_declared) (Kept-set_own ps self r)
  ]

  Kept-set_modified :
      (ps : List (Parameter F)) (o : Option (List (Parameter F))) (self : Node F)
      → IsReadOnly (Dict.get self.descriptors n)
      → Kept self (set_modified ops ps o self).1
  unfolding set_modified
  Kept-set_modified ps none self r = Kept-set_declared ps self r
  Kept-set_modified ps (some []) self r = Kept-refl self r
  Kept-set_modified ps (some (q ∷ qs)) self r = Kept-set_declared (q ∷ qs) self r

  -- While its descriptor is read-only, a parameter has the same entry after `set_parameters_atomically`,
  -- whatever the list and the callbacks are, and its descriptor is read-only still.
  pub atomically_keeps :
      (ps : List (Parameter F)) (self : Node F)
      → IsReadOnly (Dict.get self.descriptors n)
      → Kept self (set_parameters_atomically ops ps self).1
  unfolding set_parameters_atomically
  atomically_keeps ps self r = Kept-set_modified ps _ self r

  -- While its descriptor is read-only, a parameter has the same entry after `set_parameters`, and its
  -- descriptor is read-only still.
  pub set_parameters_keeps :
      (ps : List (Parameter F)) (self : Node F)
      → IsReadOnly (Dict.get self.descriptors n)
      → Kept self (set_parameters ops ps self).1
  unfolding set_parameters
  set_parameters_keeps [] self r = Kept-refl self r
  set_parameters_keeps (p ∷ ps) self r =
      let (result, self') = set_parameters_atomically ops (p ∷ []) self in
      let first : Kept self self' = atomically_keeps (p ∷ []) self r in
      elim (Result-cases result) [
        | inr (x, e) ↦ rw (e, set_parameters) first
        | inl (o, e) ↦
            let later = set_parameters_keeps ps self' first.1 in
            rw (e, set_parameters) (later.0 ∙ first.0, later.1)
      ]
