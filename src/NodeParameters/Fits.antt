-- ===== src/NodeParameters/Fits.antt =====
-- What a descriptor demands of a parameter (rclpy/rclpy/node.py, `_apply_descriptors`).
use rclpy.Prelude.{
  ◌≡◌, ◌≢◌, subst, ◌⊎◌, inl, inr, refl, sym, String, Bool, true, false, Option, none, some, List,
  [], ◌∷◌, All, arith, string_eq, ◌=?◌, =?_iff, =?_refl, Bool-cases, Option-cases,
}
use rclpy.Dict
use rclpy.Dict.{Dict, dict_laws}
use rclpy.Parameter.{ParameterType, not_set, type_eq, Parameter}
use rclpy.NodeParameters.{Outcome, successful, failed, Reason, Descriptor, default_descriptor}
use rclpy.NodeParameters.Apply.{
  FloatOps, apply_ranges, apply_type, apply_descriptor, apply_one, apply_descriptors,
}

type_eq_sound : (a b : ParameterType) → type_eq a b ≡ true → a ≡ b
type_eq_sound a b h = ground arith

pub Outcome-cases : (o : Outcome) → (o ≡ successful) ⊎ ((r : Reason) × (o ≡ failed r))
Outcome-cases successful = inl refl
Outcome-cases (failed r) = inr (r, refl)

pub failed≢successful : (r : Reason) → failed r ≢ successful
failed≢successful r h = cc

module _ {F : Type 0} where
  -- `b` makes the same demands as `a`: only the name, and with dynamic typing the type, may differ.
  pub record SameChecks (a b : Descriptor F) : Type 0 where
    pub read_only : b.read_only ≡ a.read_only
    pub dynamic : b.dynamic_typing ≡ a.dynamic_typing
    pub integer_range : b.integer_range ≡ a.integer_range
    pub floating_point_range : b.floating_point_range ≡ a.floating_point_range
    pub static_type : a.dynamic_typing ≡ false → b.type_ ≡ a.type_

  pub SameChecks-refl : (a : Descriptor F) → SameChecks a a
  SameChecks-refl a = ground arith

  pub SameChecks-trans : {a b c : Descriptor F} → SameChecks a b → SameChecks b c → SameChecks a c
  SameChecks-trans s t = ground arith

  abbrev pub SameEntry : Option (Descriptor F) → Option (Descriptor F) → Type 0
  SameEntry none none = Unit
  SameEntry (some a) (some b) = SameChecks a b
  SameEntry _ _ = ⊥

  pub SameEntry-refl : (o : Option (Descriptor F)) → SameEntry o o
  SameEntry-refl none = tt
  SameEntry-refl (some d) = SameChecks-refl d

  pub SameEntry-trans :
      (a b c : Option (Descriptor F)) → SameEntry a b → SameEntry b c → SameEntry a c
  SameEntry-trans none none none h k = tt
  SameEntry-trans (some a) (some b) (some c) h k = SameChecks-trans h k
  SameEntry-trans none none (some c) h k = absurd k
  SameEntry-trans none (some b) c h k = absurd h
  SameEntry-trans (some a) none c h k = absurd h
  SameEntry-trans (some a) (some b) none h k = absurd k

module _ {F : Type 0} (ops : FloatOps F) where
  -- With static typing a value is of the descriptor's type, and it lies in the range, if any.
  pub record Fits (p : Parameter F) (d : Descriptor F) : Type 0 where
    pub typed : d.dynamic_typing ≡ false → (p.type_ ≡ not_set) ⊎ (p.type_ ≡ d.type_)
    pub ranged : apply_ranges ops p.type_ d.integer_range d.floating_point_range p ≡ successful

  pub Fits-SameChecks :
      (p : Parameter F) {a b : Descriptor F} → SameChecks a b → Fits p a → Fits p b
  Fits-SameChecks p {a} {b} s f = record {
    typed = λ h. ground (arith, f.typed);
    ranged = rw (s.integer_range, s.floating_point_range) f.ranged;
  }

  pub Fits-default :
      (p : Parameter F) → Fits p (record default_descriptor { dynamic_typing = true })
  unfolding apply_ranges
  Fits-default p = record { typed = λ h. ground arith; ranged = ground arith }

  module _ (parameters : Dict String (Parameter F)) (p : Parameter F) (d : Descriptor F)
      (c : Bool) where
    pub apply_descriptor-SameChecks : SameChecks d (apply_descriptor ops parameters p d c).1
    unfolding apply_descriptor apply_type
    apply_descriptor-SameChecks = ground arith

    pub apply_descriptor-Fits :
        (apply_descriptor ops parameters p d c).0 ≡ successful
        → Fits p (apply_descriptor ops parameters p d c).1
    unfolding apply_descriptor apply_type
    apply_descriptor-Fits h = record {
      typed = λ k. ground (arith, type_eq_sound p.type_ d.type_, type_eq_sound p.type_ not_set);
      ranged = ground arith;
    }

  -- If the name has a descriptor, the parameter fits it.
  abbrev pub FitsEntry : Parameter F → Option (Descriptor F) → Type 0
  FitsEntry p none = Unit
  FitsEntry p (some d) = Fits p d

  pub FitsEntry-SameEntry :
      (p : Parameter F) (a b : Option (Descriptor F))
      → SameEntry a b
      → FitsEntry p a
      → FitsEntry p b
  FitsEntry-SameEntry p none none s f = tt
  FitsEntry-SameEntry p (some a) (some b) s f = Fits-SameChecks p s f
  FitsEntry-SameEntry p none (some b) s f = absurd s
  FitsEntry-SameEntry p (some a) none s f = absurd s

  abbrev pub SameEntries : Dict String (Descriptor F) → Dict String (Descriptor F) → Type 0
  SameEntries ds es = (n : String) → SameEntry (Dict.get ds n) (Dict.get es n)

  module _ (parameters : Dict String (Parameter F)) (c : Bool) where
    SameEntry-set :
        (n : String) (ds : Dict String (Descriptor F)) (k : String) (d d' : Descriptor F)
        → Dict.get ds k ≡ some d
        → SameChecks d d'
        → SameEntry (Dict.get ds n) (Dict.get (Dict.set ds k d') n)
    SameEntry-set n ds k d d' e s = elim (Bool-cases (k =? n)) [
      | inl same ↦ rw (Dict.get-set, same, ← (=?_iff k n).0 same, e) s
      | inr other ↦ rw (Dict.get-set, other) (SameEntry-refl (Dict.get ds n))
    ]

    pub apply_one-SameEntries :
        (p : Parameter F) (ds : Dict String (Descriptor F))
        → SameEntries ds (apply_one ops parameters c p ds).1
    unfolding apply_one
    apply_one-SameEntries p ds n = elim (Option-cases (Dict.get ds p.name)) [
      | inl e ↦ rw (e, apply_one) (SameEntry-refl (Dict.get ds n))
      | inr (d, e) ↦
          rw (e, apply_one)
            (SameEntry-set n ds p.name d _ e (apply_descriptor-SameChecks parameters p d c))
    ]

    pub apply_one-FitsEntry :
        (p : Parameter F) (ds : Dict String (Descriptor F))
        → (apply_one ops parameters c p ds).0 ≡ successful
        → FitsEntry p (Dict.get (apply_one ops parameters c p ds).1 p.name)
    unfolding apply_one
    apply_one-FitsEntry p ds h = elim (Option-cases (Dict.get ds p.name)) [
      | inl e ↦ rw (e, apply_one) (rw e tt)
      | inr (d, e) ↦
          rw (e, apply_one)
            (rw (Dict.get-set, =?_refl)
              (apply_descriptor-Fits parameters p d c (rw (e, apply_one) at h)))
    ]

    module _ (p : Parameter F) (ps : List (Parameter F)) (ds : Dict String (Descriptor F)) where
      pub apply_descriptors_go :
          (apply_one ops parameters c p ds).0 ≡ successful
          → apply_descriptors ops parameters (p ∷ ps) ds c
            ≡ apply_descriptors ops parameters ps (apply_one ops parameters c p ds).1 c
      unfolding apply_descriptors
      apply_descriptors_go e = rw (e, apply_descriptors)

      pub apply_descriptors_stop :
          (r : Reason)
          → (apply_one ops parameters c p ds).0 ≡ failed r
          → apply_descriptors ops parameters (p ∷ ps) ds c
            ≡ (failed r, (apply_one ops parameters c p ds).1)
      unfolding apply_descriptors
      apply_descriptors_stop r e = rw (e, apply_descriptors)

    pub apply_descriptors-SameEntries :
        (ps : List (Parameter F)) (ds : Dict String (Descriptor F))
        → SameEntries ds (apply_descriptors ops parameters ps ds c).1
    apply_descriptors-SameEntries [] ds n =
        unfold apply_descriptors in SameEntry-refl (Dict.get ds n)
    apply_descriptors-SameEntries (p ∷ ps) ds n =
        let (outcome, es) = apply_one ops parameters c p ds in
        let first : SameEntries ds es = apply_one-SameEntries p ds in
        elim (Outcome-cases outcome) [
          | inl e ↦
              rw (apply_descriptors_go p ps ds e)
                (SameEntry-trans _ _ _ (first n) (apply_descriptors-SameEntries ps es n))
          | inr (r, e) ↦ rw (apply_descriptors_stop p ps ds r e) (first n)
        ]

    pub apply_descriptors-FitsEntry :
        (ps : List (Parameter F)) (ds : Dict String (Descriptor F))
        → (apply_descriptors ops parameters ps ds c).0 ≡ successful
        → All (λ p. FitsEntry p (Dict.get (apply_descriptors ops parameters ps ds c).1 p.name)) ps
    apply_descriptors-FitsEntry [] ds h = tt
    apply_descriptors-FitsEntry (p ∷ ps) ds h =
        let (outcome, es) = apply_one ops parameters c p ds in
        elim (Outcome-cases outcome) [
          | inl e ↦
              subst
                (λ (r : Outcome × Dict String (Descriptor F)).
                  All (λ q. FitsEntry q (Dict.get r.1 q.name)) (p ∷ ps))
                (sym (apply_descriptors_go p ps ds e))
                (
                  FitsEntry-SameEntry p _ _ (apply_descriptors-SameEntries ps es p.name)
                      (apply_one-FitsEntry p ds e),
                  apply_descriptors-FitsEntry ps es (rw (apply_descriptors_go p ps ds e) at h),
                )
          | inr (r, e) ↦ absurd (failed≢successful r (rw (apply_descriptors_stop p ps ds r e) at h))
        ]
