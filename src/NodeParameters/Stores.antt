-- ===== src/NodeParameters/Stores.antt =====
-- The loop that stores parameters and the setters around it (rclpy/rclpy/node.py), and well-formedness.
use rclpy.Prelude.{
  ◌≡◌, inl, inr, refl, String, Bool, true, false, not, ◌&&◌, Option, none, some, List, [], ◌∷◌, All,
  all, all-cons, string_eq, ◌=?◌, Bool-cases, Option-cases,
}
use mathlib.Core.Bool.{false≢true}
use rclpy.Dict
use rclpy.Dict.{Dict, is_some}
use rclpy.Parameter.{not_set, type_eq, Parameter}
use rclpy.NodeParameters.{
  Outcome, successful, failed, Descriptor, default_descriptor, Node, ParameterEvent,
}
use rclpy.NodeParameters.Apply.{FloatOps, apply_descriptors}
use rclpy.NodeParameters.Fits.{
  Fits, FitsEntry, Fits-default, SameEntry, SameEntries, apply_descriptors-SameEntries,
  apply_descriptors-FitsEntry, Outcome-cases,
}
use rclpy.NodeParameters.Invariant.{
  IsValidAt, IsValid, IsValidAt-SameEntries, IsValidAt-del, IsValidAt-set, IsValidAt-set_kept,
}
use rclpy.NodeParameters.Set.{
  store_one, store_all, store_descriptor, commit, run_on_set, set_checked, set_own, set_given,
}

module _ {F : Type 0} (ops : FloatOps F) where
  -- The descriptors that a parameter is stored with: those that were passed, or the node's own.
  abbrev ReadyIn :
      Option (Dict String (Descriptor F)) → Dict String (Descriptor F) → Parameter F → Type 0
  ReadyIn none ds p = FitsEntry ops p (Dict.get ds p.name)
  ReadyIn (some given) ds p = (d : Descriptor F) × (Dict.get given p.name ≡ some d) × Fits ops p d

  -- What holds in the loop that stores: the node is valid and the rest is ready.
  pub record Going (given : Option (Dict String (Descriptor F))) (self : Node F)
      (ps : List (Parameter F)) : Type 0 where
    valid : IsValid ops self
    ready : All (ReadyIn given self.descriptors) ps

  abbrev FitsNow : Parameter F → Dict String (Descriptor F) → Type 0
  FitsNow p ds = FitsEntry ops p (Dict.get ds p.name)

  FitsNow-del :
      (q : Parameter F) (k : String) (ds : Dict String (Descriptor F))
      → FitsNow q ds
      → FitsNow q (Dict.del ds k)
  FitsNow-del q k ds f = elim (Bool-cases (k =? q.name)) [
    | inl e ↦ rw (Dict.get-del, e) tt
    | inr e ↦ rw (Dict.get-del, e) f
  ]

  FitsNow-set :
      (q : Parameter F) (k : String) (ds : Dict String (Descriptor F))
      → FitsNow q ds
      → FitsNow q (Dict.set ds k (record default_descriptor { dynamic_typing = true }))
  FitsNow-set q k ds f = elim (Bool-cases (k =? q.name)) [
    | inl e ↦ rw (Dict.get-set, e) (Fits-default ops q)
    | inr e ↦ rw (Dict.get-set, e) f
  ]

  All-imp :
      (P Q : Parameter F → Type 0) (ps : List (Parameter F))
      → ((p : Parameter F) → P p → Q p)
      → All P ps
      → All Q ps
  All-imp P Q [] h a = tt
  All-imp P Q (p ∷ ps) h a = (h p a.0, All-imp P Q ps h a.1)

  module _ (ds : Dict String (Descriptor F)) (k : String) where
    All-ReadyIn-del :
        (given : Option (Dict String (Descriptor F))) (ps : List (Parameter F))
        → All (ReadyIn given ds) ps
        → All (ReadyIn given (Dict.del ds k)) ps
    All-ReadyIn-del none ps = All-imp _ _ ps (λ q. FitsNow-del q k ds)
    All-ReadyIn-del (some g) ps = λ a. a

    FitsNow-store_descriptor :
        (q : Parameter F) → FitsNow q ds → FitsNow q (store_descriptor none k ds)
    unfolding store_descriptor
    FitsNow-store_descriptor q f = elim (Option-cases (Dict.get ds k)) [
      | inl e ↦ rw (e, store_descriptor) (FitsNow-set q k ds f)
      | inr (d, e) ↦ rw (e, store_descriptor) f
    ]

    All-ReadyIn-store_descriptor :
        (given : Option (Dict String (Descriptor F))) (ps : List (Parameter F))
        → All (ReadyIn given ds) ps
        → All (ReadyIn given (store_descriptor given k ds)) ps
    All-ReadyIn-store_descriptor none ps = All-imp _ _ ps FitsNow-store_descriptor
    All-ReadyIn-store_descriptor (some g) ps = λ a. a

  IsValidAt-store :
      (given : Option (Dict String (Descriptor F))) (ps : Dict String (Parameter F))
      (ds : Dict String (Descriptor F)) (p : Parameter F)
      → IsValidAt ops ps ds
      → ReadyIn given ds p
      → IsValidAt ops (Dict.set ps p.name p) (store_descriptor given p.name ds)
  unfolding store_descriptor
  IsValidAt-store (some g) ps ds p v (d, e, f) =
      rw (e, store_descriptor) (IsValidAt-set ops ps ds v p d f)
  IsValidAt-store none ps ds p v f = elim (Option-cases (Dict.get ds p.name)) [
    | inl e ↦ rw (e, store_descriptor) (IsValidAt-set ops ps ds v p _ (Fits-default ops p))
    | inr (d, e) ↦ rw (e, store_descriptor) (IsValidAt-set_kept ops ps ds v p d e (rw e at f))
  ]

  store_one-Going :
      (given : Option (Dict String (Descriptor F))) (allow : Bool) (self : Node F)
      (event : ParameterEvent F) (p : Parameter F) (ps : List (Parameter F))
      → Going given self (p ∷ ps)
      → Going given (store_one given allow p (self, event)).0 ps
  unfolding store_one
  store_one-Going given allow self event p ps g =
      elim (Bool-cases (not allow && type_eq p.type_ not_set)) [
        | inl e ↦ rw e (record {
          valid = IsValidAt-del ops self.parameters self.descriptors g.valid p.name;
          ready = All-ReadyIn-del self.descriptors p.name given ps g.ready.1;
        })
        | inr e ↦ rw e (record {
          valid = IsValidAt-store given self.parameters self.descriptors p g.valid g.ready.0;
          ready = All-ReadyIn-store_descriptor self.descriptors p.name given ps g.ready.1;
        })
      ]

  store_all-IsValid :
      (given : Option (Dict String (Descriptor F))) (allow : Bool) (ps : List (Parameter F))
      (self : Node F) (event : ParameterEvent F)
      → Going given self ps
      → IsValid ops (store_all given allow ps (self, event)).0
  unfolding store_all
  store_all-IsValid given allow [] self event g = g.valid
  store_all-IsValid given allow (p ∷ ps) self event g =
      let (self', event') = store_one given allow p (self, event) in
      store_all-IsValid given allow ps self' event' (store_one-Going given allow self event p ps g)

  set_checked-IsValid :
      (given : Option (Dict String (Descriptor F))) (allow : Bool) (ps : List (Parameter F))
      (outcome : Outcome) (self : Node F)
      → IsValid ops self
      → (outcome ≡ successful → All (ReadyIn given self.descriptors) ps)
      → IsValid ops (set_checked given allow ps outcome self).1
  unfolding set_checked commit
  set_checked-IsValid given allow ps (failed r) self v h = v
  set_checked-IsValid given allow ps successful self v h =
      elim (Outcome-cases (run_on_set self.on_set_parameters_callbacks ps)) [
        | inl e ↦
            rw (e, set_checked)
              (store_all-IsValid given allow ps self _ (record { valid = v; ready = h refl }))
        | inr (r, e) ↦ rw (e, set_checked) v
      ]

  -- Setting with the node's own descriptors, and with new ones, keeps the parameters well formed.
  pub set_own-IsValid :
      (ps : List (Parameter F)) (self : Node F)
      → IsValid ops self
      → IsValid ops (set_own ops ps self).1
  unfolding set_own
  set_own-IsValid ps self v =
      set_checked-IsValid none false ps _ _
        (IsValidAt-SameEntries ops self.parameters self.descriptors v _
          (apply_descriptors-SameEntries ops self.parameters true ps self.descriptors))
        (apply_descriptors-FitsEntry ops self.parameters true ps self.descriptors)

  entry_of :
      (p : Parameter F) (a b : Option (Descriptor F))
      → is_some a ≡ true
      → SameEntry a b
      → FitsEntry ops p b
      → (d : Descriptor F) × (b ≡ some d) × Fits ops p d
  entry_of p (some a) (some b) h s f = (b, refl, f)
  entry_of p none b h s f = absurd (false≢true h)
  entry_of p (some a) none h s f = absurd s

  ready_of_all :
      (given es : Dict String (Descriptor F)) (ps : List (Parameter F))
      → all (λ p. is_some (Dict.get given p.name)) ps ≡ true
      → SameEntries ops given es
      → All (λ p. FitsEntry ops p (Dict.get es p.name)) ps
      → All (λ p. (d : Descriptor F) × (Dict.get es p.name ≡ some d) × Fits ops p d) ps
  ready_of_all given es [] h s a = tt
  ready_of_all given es (p ∷ ps) h s a =
      let (here, there) = all-cons _ p ps h in
      (entry_of p _ _ here (s p.name) a.0, ready_of_all given es ps there s a.1)

  pub set_given-IsValid :
      (given : Dict String (Descriptor F)) (ps : List (Parameter F)) (self : Node F)
      → IsValid ops self
      → IsValid ops (set_given ops given ps self).1
  unfolding set_given
  set_given-IsValid given ps self v =
      elim (Bool-cases (all (λ p. is_some (Dict.get given p.name)) ps)) [
        | inl e ↦ rw e (
            set_checked-IsValid (some (apply_descriptors ops self.parameters ps given false).1) true
              ps _ self v
              λ h.
                ready_of_all given _ ps e
                  (apply_descriptors-SameEntries ops self.parameters false ps given)
                  (apply_descriptors-FitsEntry ops self.parameters false ps given h))
        | inr e ↦ rw e v
      ]
