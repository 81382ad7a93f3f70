-- ===== src/NodeParameters/Undeclared.antt =====
-- Names that are not declared, and undeclaring (rclpy/rclpy/node.py).
use text.Mathlib.Text.{◌==◌ as str_eq}
use rclpy.Prelude.{
  ◌≡◌, ◌⊎◌, inl, inr, refl, ap, ◌∙◌, String, true, false, none, some, All, List, [], ◌∷◌, ◌++◌,
  string_eq, ◌=?◌, if◌then◌else◌, Bool-cases, Option-cases, ok, err,
}
use rclpy.Dict
use rclpy.Dict.{Dict, is_some}
use rclpy.Parameter.{Parameter}
use rclpy.NodeParameters.{
  not_declared, immutable, key_error, Node, has_parameter, undeclare_parameter,
}
use rclpy.NodeParameters.Set.{any_rest, undeclared_parameters, check_undeclared_parameters}
use rclpy.NodeParameters.ReadOnly.{IsReadOnly}

-- The first name that is not empty, with what is before it and behind it.
pub record Stopped (names : List String) (rest : List String) : Type 0 where
  pub blanks : List String
  pub name : String
  pub are_blank : All (λ n. str_eq n "" ≡ true) blanks
  pub not_blank : str_eq name "" ≡ false
  pub split : names ≡ blanks ++ name ∷ rest

any_rest-cons_blank :
    (n : String) (ns : List String) → str_eq n "" ≡ true → any_rest (n ∷ ns) ≡ any_rest ns
unfolding any_rest
any_rest-cons_blank n ns e = rw e

any_rest-cons_name :
    (n : String) (ns : List String) → str_eq n "" ≡ false → any_rest (n ∷ ns) ≡ some ns
unfolding any_rest
any_rest-cons_name n ns e = rw e

any_rest_cases :
    (names : List String)
    → ((any_rest names ≡ none) × All (λ n. str_eq n "" ≡ true) names)
      ⊎ ((rest : List String) × (any_rest names ≡ some rest) × Stopped names rest)
unfolding any_rest
any_rest_cases [] = inl (refl, tt)
any_rest_cases (n ∷ ns) = elim (Bool-cases (str_eq n "")) [
  | inr e ↦ inr (
    ns,
    any_rest-cons_name n ns e,
    record { blanks = []; name = n; are_blank = tt; not_blank = e; split = refl },
  )
  | inl e ↦ elim (any_rest_cases ns) [
    | inl (none_left, blank) ↦ inl (any_rest-cons_blank n ns e ∙ none_left, (e, blank))
    | inr (rest, found, s) ↦ inr (
      rest,
      any_rest-cons_blank n ns e ∙ found,
      record {
        blanks = n ∷ s.blanks;
        name = s.name;
        are_blank = (e, s.are_blank);
        not_blank = s.not_blank;
        split = ap (λ l. n ∷ l) s.split;
      },
    )
  ]
]

module _ {F : Type 0} where
  -- Where undeclared parameters are not allowed, the check lets a list pass if all the undeclared names are
  -- empty; otherwise it raises an exception that holds only the undeclared names behind the first one that
  -- is not empty, and not that one.
  pub check_undeclared_drops :
      (self : Node F) (ps : List (Parameter F))
      → self.allow_undeclared_parameters ≡ false
      → ((check_undeclared_parameters self ps ≡ none)
          × All (λ n. str_eq n "" ≡ true) (undeclared_parameters self ps))
        ⊎ ((rest : List String) × (check_undeclared_parameters self ps ≡ some (not_declared rest))
            × Stopped (undeclared_parameters self ps) rest)
  unfolding check_undeclared_parameters any_rest undeclared_parameters
  check_undeclared_drops self ps h = elim (any_rest_cases (undeclared_parameters self ps)) [
    | inl (e, blank) ↦ inl (rw (h, e), blank)
    | inr (rest, e, s) ↦ inr (rest, rw (h, e), s)
  ]

  -- The entries of a name go and the others stay.
  pub record Removed (name : String) (a b : Node F) : Type 0 where
    pub parameters :
        (n : String)
        → Dict.get b.parameters n ≡ (if name =? n then none else Dict.get a.parameters n)
    pub descriptors :
        (n : String)
        → Dict.get b.descriptors n ≡ (if name =? n then none else Dict.get a.descriptors n)

  -- Undeclaring a name either removes its parameter and its descriptor and no others, or raises and changes
  -- nothing: the name is not declared, or its descriptor is read-only, or it has no descriptor.
  pub undeclare_exact :
      (name : String) (self : Node F)
      → let (r, self') = undeclare_parameter name self in
        ((r ≡ ok tt) × (has_parameter self name ≡ true) × Removed name self self')
        ⊎ ((self' ≡ self)
            × (((r ≡ err (not_declared (name ∷ []))) × (has_parameter self name ≡ false))
                ⊎ (((r ≡ err (immutable name)) × IsReadOnly (Dict.get self.descriptors name))
                    ⊎ ((r ≡ err key_error) × (Dict.get self.descriptors name ≡ none)))))
  unfolding undeclare_parameter
  undeclare_exact name self = elim (Option-cases (Dict.get self.parameters name)) [
    | inl e ↦ rw (e, undeclare_parameter) (inr (refl, inl (refl, refl)))
    | inr (p, e) ↦ elim (Option-cases (Dict.get self.descriptors name)) [
      | inl e' ↦ rw (e, e', undeclare_parameter) (inr (refl, inr (inr (refl, refl))))
      | inr (d, e') ↦ elim (Bool-cases d.read_only) [
        | inl r ↦ rw (e, e', undeclare_parameter, r) (inr (refl, inr (inl (refl, refl))))
        | inr r ↦
            rw (e, e', undeclare_parameter, r)
              (inl (
                refl,
                refl,
                record {
                  parameters = λ n. Dict.get-del self.parameters name n;
                  descriptors = λ n. Dict.get-del self.descriptors name n;
                },
              ))
      ]
    ]
  ]
