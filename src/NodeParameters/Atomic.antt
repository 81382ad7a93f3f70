-- ===== src/NodeParameters/Atomic.antt =====
-- Setting parameters atomically (rclpy/rclpy/node.py, `set_parameters_atomically`): how a call can end.
use rclpy.Prelude.{
  ◌≡◌, ◌≢◌, ◌⊎◌, inl, inr, refl, ap, String, true, false, Option, none, some, All, List, [], ◌∷◌,
  ◌++◌, map, string_eq, ◌=?◌, if◌then◌else◌, Option-cases, Result, ok, ok-injective, arith,
}
use rclpy.Dict
use rclpy.Dict.{Dict}
use rclpy.Parameter.{Parameter}
use rclpy.NodeParameters.{Exception, Outcome, successful, failed, Node, ParameterEvent}
use rclpy.NodeParameters.Apply.{FloatOps, apply_descriptors}
use rclpy.NodeParameters.Fits.{
  SameEntry, SameEntry-refl, SameEntry-trans, SameEntries, apply_descriptors-SameEntries,
  Outcome-cases, failed≢successful,
}
use rclpy.NodeParameters.Set.{
  run_on_set, store_all, new_event, commit, check_undeclared_parameters, call_pre_set, set_checked,
  set_own, set_declared, set_modified, set_parameters_atomically,
}
use rclpy.NodeParameters.Loop.{stored, get-store_all, store_all-SameRest, descriptors-store_all}

-- What does not change: the parameters, the events and the calls of post set callbacks; a descriptor
-- may get another name and, with dynamic typing, another type.
pub record Unchanged {F : Type 0} (ops : FloatOps F) (a b : Node F) : Type 0 where
  pub parameters : b.parameters ≡ a.parameters
  pub published : b.published ≡ a.published
  pub post_calls : b.post_calls ≡ a.post_calls
  pub descriptors : SameEntries ops a.descriptors b.descriptors

-- The effect of a successful call with the list `ps`.
pub record Committed {F : Type 0} (ps : List (Parameter F)) (a b : Node F) : Type 0 where
  pub parameters : (n : String) → Dict.get b.parameters n ≡ stored n ps (Dict.get a.parameters n)
  pub published :
      (e : ParameterEvent F) × (b.published
        ≡ (if a.has_event_publisher then a.published ++ e ∷ [] else a.published))
  pub others :
      (n : String)
      → All (λ p. (p.name =? n) ≡ false) ps
      → SameEntry (Dict.get a.descriptors n) (Dict.get b.descriptors n)
  pub post_calls : b.post_calls ≡ a.post_calls ++ map (λ c. (c, ps)) a.post_set_parameters_callbacks

module _ {F : Type 0} (ops : FloatOps F) where
  Unchanged-refl : (self : Node F) → Unchanged ops self self
  Unchanged-refl self = record {
    parameters = refl;
    published = refl;
    post_calls = refl;
    descriptors = λ n. SameEntry-refl (Dict.get self.descriptors n);
  }

  commit-Committed :
      (ps : List (Parameter F)) (self : Node F) → Committed ps self (commit none false ps self)
  unfolding commit
  commit-Committed ps self =
      let rest = store_all-SameRest none false ps self (new_event self) in
      record {
        parameters = λ n. get-store_all n ps self (new_event self);
        published = ((store_all none false ps (self, new_event self)).1, ground (arith, rest));
        others = λ n free.
            rw (descriptors-store_all n ps self (new_event self) free)
              (SameEntry-refl (Dict.get self.descriptors n));
        post_calls = ground (arith, rest);
      }

  -- The two ways of ending, behind the descriptors' outcome.
  set_checked_cases :
      (ps : List (Parameter F)) (outcome : Outcome) (self : Node F)
      → ((outcome ≡ successful)
          × ((set_checked none false ps outcome self).0 ≡ successful)
          × Committed ps self (set_checked none false ps outcome self).1)
        ⊎ (((set_checked none false ps outcome self).0 ≢ successful)
            × ((set_checked none false ps outcome self).1 ≡ self))
  unfolding set_checked
  set_checked_cases ps (failed r) self = inr (failed≢successful r, refl)
  set_checked_cases ps successful self =
      elim (Outcome-cases (run_on_set self.on_set_parameters_callbacks ps)) [
        | inl e ↦ inl (refl, rw (e, set_checked), rw (e, set_checked) (commit-Committed ps self))
        | inr (r, e) ↦ inr (rw (e, set_checked) (failed≢successful r), rw (e, set_checked))
      ]

  pub set_own_cases :
      (ps : List (Parameter F)) (self : Node F)
      → (((apply_descriptors ops self.parameters ps self.descriptors true).0 ≡ successful)
          × ((set_own ops ps self).0 ≡ successful)
          × Committed ps self (set_own ops ps self).1)
        ⊎ (((set_own ops ps self).0 ≢ successful) × Unchanged ops self (set_own ops ps self).1)
  unfolding set_own
  set_own_cases ps self =
      let (outcome, applied) = apply_descriptors ops self.parameters ps self.descriptors true in
      elim (set_checked_cases ps outcome (record self { descriptors = applied })) [
        | inl (o, e, c) ↦ inl (
          o,
          e,
          record {
            parameters = c.parameters;
            published = c.published;
            post_calls = c.post_calls;
            others = λ n free.
                SameEntry-trans _ _ _
                  (apply_descriptors-SameEntries ops self.parameters true ps self.descriptors n)
                  (c.others n free);
          },
        )
        | inr (e, same) ↦ inr (
          e,
          rw same (record {
            parameters = refl;
            published = refl;
            post_calls = refl;
            descriptors =
                apply_descriptors-SameEntries ops self.parameters true ps self.descriptors;
          }),
        )
      ]

  -- The list that the pre set callbacks make of the given one.
  abbrev pub modified : Node F → List (Parameter F) → List (Parameter F)
  modified self ps = elim (call_pre_set self.pre_set_parameters_callbacks ps) [
    | none ↦ ps
    | some qs ↦ qs
  ]

  abbrev Ends : List (Parameter F) → Node F → Result Exception Outcome × Node F → Type 0
  Ends ps self (r, self') =
      ((r ≡ ok successful) × Committed ps self self')
      ⊎ ((r ≢ ok successful) × Unchanged ops self self')

  set_declared_cases :
      (ps : List (Parameter F)) (self : Node F) → Ends ps self (set_declared ops ps self)
  unfolding set_declared
  set_declared_cases ps self = elim (Option-cases (check_undeclared_parameters self ps)) [
    | inr (x, e) ↦ rw (e, set_declared) (inr (λ h. cc, Unchanged-refl self))
    | inl e ↦ elim (set_own_cases ps self) [
      | inl (_, o, c) ↦ rw (e, set_declared) (inl (ap ok o, c))
      | inr (o, u) ↦ rw (e, set_declared) (inr (λ h. o (ok-injective h), u))
    ]
  ]

  -- Where each parameter of the list can be converted into a message and the event can be published, a call
  -- either is successful, and then the list as the pre set callbacks made it is stored whole
  -- (the last parameter of a name counts, and one without a value removes the entry), the descriptors of
  -- other names stay, there is one event for
  -- the whole list if there is a publisher, and a call of each post set callback; or it fails or raises, and then the
  -- parameters, the events and the calls of post set callbacks are as before.
  pub atomic :
      (ps : List (Parameter F)) (self : Node F)
      → let (r, self') = set_parameters_atomically ops ps self in
        ((r ≡ ok successful) × Committed (modified self ps) self self')
        ⊎ ((r ≢ ok successful) × Unchanged ops self self')
  unfolding set_parameters_atomically set_modified
  atomic ps self = cases (call_pre_set self.pre_set_parameters_callbacks ps)
    where
      cases :
          (o : Option (List (Parameter F)))
          → Ends (elim o [ none ↦ ps | some qs ↦ qs ]) self (set_modified ops ps o self)
      cases none = set_declared_cases ps self
      cases (some []) = inr (λ h. cc, Unchanged-refl self)
      cases (some (q ∷ qs)) = set_declared_cases (q ∷ qs) self
