-- ===== src/ParameterNames/Prefix.antt =====
-- get_parameters_by_prefix (rclpy/rclpy/node.py).
use rclpy.Prelude.{
  ◌≡◌, refl, sym, ap, ◌∙◌, inl, inr, true, false, Option, none, some, List, [], ◌∷◌, ◌++◌, length,
  if◌then◌else◌, Bool-cases,
}
use rclpy.Dict
use rclpy.Dict.{Dict}
use rclpy.ParameterNames.{
  Text, separator, text_eq, text_eq_iff, texts_eq, starts_with, drop, collect,
  get_parameters_by_prefix,
}
use rclpy.ParameterNames.Segments.{starts_with-append, starts_with-drop, drop-append}

-- The first of two values that is there.
abbrev pub or_else {ℓ} : {A : Type ℓ} → Option A → Option A → Option A
or_else none o = o
or_else (some a) o = some a

-- The prefix with its separator.
abbrev pub full : Text → Text
full [] = []
full (x ∷ prefix) = (x ∷ prefix) ++ separator ∷ []

differ : (a b : Text) → (a ≡ b → ⊥) → text_eq a b ≡ false
differ a b h = elim (Bool-cases (text_eq a b)) [
  | inl e ↦ absurd (h ((text_eq_iff a b).0 e))
  | inr e ↦ e
]

false-ne-true : false ≡ true → ⊥
false-ne-true h = cc

module _ {V : Type 0} (prefix : Text) where
  one_name :
      (n k : Text) (v : V) (result : Dict Text V)
      → Dict.get
          (if starts_with prefix n then Dict.set result (drop (length prefix) n) v else result)
          k
        ≡ (if text_eq n (prefix ++ k) then some v else Dict.get result k)
  one_name n k v result = elim (Bool-cases (starts_with prefix n)) [
    | inr e ↦
        let other : text_eq n (prefix ++ k) ≡ false = differ n (prefix ++ k) (λ same.
          false-ne-true (sym e ∙ ap (starts_with prefix) same ∙ starts_with-append prefix k)) in
        rw (e, other) refl
    | inl e ↦ elim (Bool-cases (text_eq n (prefix ++ k))) [
      | inl same ↦
          let key : drop (length prefix) n ≡ k =
            ap (drop (length prefix)) ((text_eq_iff n (prefix ++ k)).0 same)
            ∙ drop-append prefix k in
          rw (e, same, Dict.get-set result (drop (length prefix) n) k v, (text_eq_iff _ _).1 key)
            refl
      | inr other ↦
          let not_key : text_eq (drop (length prefix) n) k ≡ false =
            differ (drop (length prefix) n) k (λ key. false-ne-true (
              sym other
              ∙ (text_eq_iff n (prefix ++ k)).1
                  (starts_with-drop prefix n e ∙ ap (λ (r : Text). prefix ++ r) key))) in
          rw (e, other, Dict.get-set result (drop (length prefix) n) k v, not_key) refl
    ]
  ]

  collect-get :
      (items : List (Text × V)) (result : Dict Text V) (k : Text)
      → Dict.IsUnique (record { entries = items })
      → Dict.get (collect prefix items result) k
        ≡ or_else (Dict.get (record { entries = items }) (prefix ++ k)) (Dict.get result k)
  unfolding collect
  collect-get [] result k u = rw (Dict.get-nil {V = V} (prefix ++ k)) refl
  collect-get ((n, v) ∷ items) result k u =
      let (fresh, u') = Dict.IsUnique-cons n v items u in
      let ih =
        collect-get items
          (if starts_with prefix n then Dict.set result (drop (length prefix) n) v else result) k
          u' in
      ih ∙ elim (Bool-cases (text_eq n (prefix ++ k))) [
        | inl same ↦
            let gone : Dict.get (record { entries = items }) (prefix ++ k) ≡ none =
              ap (Dict.get (record { entries = items }))
                (sym ((text_eq_iff n (prefix ++ k)).0 same))
              ∙ fresh in
            rw (one_name n k v result, Dict.get-cons n (prefix ++ k) v items, same, gone) refl
        | inr other ↦ rw (one_name n k v result, Dict.get-cons n (prefix ++ k) v items, other) refl
      ]

-- Nothing was collected at first.
alone : {V : Type 0} (k : Text) (o : Option V) → or_else o (Dict.get (Dict.empty {K = Text}) k) ≡ o
alone k none = Dict.get-empty k
alone k (some v) = refl

-- A dictionary of parameters with a prefix has, under the rest of a name, the parameter of this name, and nothing
-- else: under `k` what the node has under the prefix, a separator and `k`, and for the empty prefix under `k` itself.
pub get_parameters_by_prefix-get :
    {V : Type 0} (prefix k : Text) (parameters : Dict Text V)
    → Dict.IsUnique parameters
    → Dict.get (get_parameters_by_prefix prefix parameters) k
      ≡ Dict.get parameters (full prefix ++ k)
unfolding get_parameters_by_prefix
get_parameters_by_prefix-get [] k parameters u =
    collect-get [] parameters.entries Dict.empty k u ∙ alone k (Dict.get parameters k)
get_parameters_by_prefix-get (x ∷ prefix) k parameters u =
    collect-get ((x ∷ prefix) ++ separator ∷ []) parameters.entries Dict.empty k u
    ∙ alone k (Dict.get parameters (((x ∷ prefix) ++ separator ∷ []) ++ k))
