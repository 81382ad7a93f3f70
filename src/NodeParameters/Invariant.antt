-- ===== src/NodeParameters/Invariant.antt =====
-- The well-formedness of a node's parameters (rclpy/rclpy/node.py).
use rclpy.Prelude.{
  ◌≡◌, inl, inr, refl, String, Option, none, some, string_eq, ◌=?◌, =?_iff, Bool-cases,
}
use rclpy.Dict
use rclpy.Dict.{Dict, is_some}
use rclpy.Parameter.{Parameter}
use rclpy.NodeParameters.{Descriptor, Node}
use rclpy.NodeParameters.Apply.{FloatOps}
use rclpy.NodeParameters.Fits.{Fits, Fits-SameChecks, SameEntry, SameEntries}

module _ {F : Type 0} (ops : FloatOps F) where
  -- A name has a parameter and a descriptor or neither, and the parameter is stored under its own
  -- name and fits its descriptor.
  pub data ValidEntry (n : String) : Option (Parameter F) → Option (Descriptor F) → Type 0 where
    absent : ValidEntry n none none
    present :
        {p : Parameter F} {d : Descriptor F}
        → p.name ≡ n
        → Fits ops p d
        → ValidEntry n (some p) (some d)

  pub record IsValidAt (ps : Dict String (Parameter F)) (ds : Dict String (Descriptor F))
      : Type 0 where
    pub at : (n : String) → ValidEntry n (Dict.get ps n) (Dict.get ds n)

  abbrev pub IsValid : Node F → Type 0
  IsValid self = IsValidAt self.parameters self.descriptors

  ValidEntry-SameEntry :
      (n : String) (p : Option (Parameter F)) (a b : Option (Descriptor F))
      → SameEntry a b
      → ValidEntry n p a
      → ValidEntry n p b
  ValidEntry-SameEntry n none none none s absent = absent
  ValidEntry-SameEntry n (some p) (some a) (some b) s (present e f) =
      present e (Fits-SameChecks ops p s f)
  ValidEntry-SameEntry n none (some a) b s v = elim v [ ]
  ValidEntry-SameEntry n (some p) none b s v = elim v [ ]
  ValidEntry-SameEntry n none none (some b) s v = absurd s
  ValidEntry-SameEntry n (some p) (some a) none s v = absurd s

  module _ (ps : Dict String (Parameter F)) (ds : Dict String (Descriptor F))
      (v : IsValidAt ps ds) where
    pub IsValidAt-SameEntries :
        (es : Dict String (Descriptor F)) → SameEntries ops ds es → IsValidAt ps es
    IsValidAt-SameEntries es s = record {
      at = λ n.
          ValidEntry-SameEntry n (Dict.get ps n) (Dict.get ds n) (Dict.get es n) (s n) (v.at n);
    }

    pub IsValidAt-del : (k : String) → IsValidAt (Dict.del ps k) (Dict.del ds k)
    IsValidAt-del k = record {
      at = λ n. elim (Bool-cases (k =? n)) [
        | inl e ↦ rw (Dict.get-del, Dict.get-del, e) absent
        | inr e ↦ rw (Dict.get-del, Dict.get-del, e) (v.at n)
      ];
    }

    -- Both are written, at the parameter's name.
    pub IsValidAt-set :
        (p : Parameter F) (d : Descriptor F)
        → Fits ops p d
        → IsValidAt (Dict.set ps p.name p) (Dict.set ds p.name d)
    IsValidAt-set p d f = record {
      at = λ n. elim (Bool-cases (p.name =? n)) [
        | inl e ↦ rw (Dict.get-set, Dict.get-set, e) (present ((=?_iff p.name n).0 e) f)
        | inr e ↦ rw (Dict.get-set, Dict.get-set, e) (v.at n)
      ];
    }

    -- The parameter is written, and the descriptor that is there is kept.
    pub IsValidAt-set_kept :
        (p : Parameter F) (d : Descriptor F)
        → Dict.get ds p.name ≡ some d
        → Fits ops p d
        → IsValidAt (Dict.set ps p.name p) ds
    IsValidAt-set_kept p d g f = record {
      at = λ n. elim (Bool-cases (p.name =? n)) [
        | inl e ↦
            let same = (=?_iff p.name n).0 e in rw (Dict.get-set, e, ← same, g) (present refl f)
        | inr e ↦ rw (Dict.get-set, e) (v.at n)
      ];
    }
