-- ===== src/Dict/Assoc.antt =====
-- Association lists in order of insertion.
use rclpy.Prelude.{
  ◌≡◌, inl, inr, refl, all, Bool, true, false, Bool-cases, =?_refl, Option, none, some, List, [],
  ◌∷◌, map, Eq, ◌=?◌, if◌then◌else◌, arith,
}

-- `k in d` is `is_some (get d k)`.
abbrev pub is_some {ℓ} : {A : Type ℓ} → Option A → Bool
is_some none = false
is_some (some _) = true

module _ {ℓ κ} {K : Type ℓ} {V : Type κ} ⦃e : Eq K⦄ where
  unfoldable pub lookup : K → List (K × V) → Option V
  lookup k [] = none
  lookup k ((j, v) ∷ l) = if j =? k then some v else lookup k l

  unfoldable pub put : K → V → List (K × V) → List (K × V)
  put k v [] = (k, v) ∷ []
  put k v ((j, w) ∷ l) = if j =? k then (j, v) ∷ l else (j, w) ∷ put k v l

  unfoldable pub drop : K → List (K × V) → List (K × V)
  drop k [] = []
  drop k ((j, w) ∷ l) = let rest = drop k l in if j =? k then rest else (j, w) ∷ rest

  pub lookup-put :
      (k j : K) (v : V) (l : List (K × V))
      → lookup j (put k v l) ≡ (if k =? j then some v else lookup j l)
  unfolding lookup put
  lookup-put k j v [] = refl
  lookup-put k j v ((i, w) ∷ l) =
      ground (arith, e.beq_iff k j, e.beq_iff i k, e.beq_iff i j, lookup-put k j v l)

  pub lookup-drop :
      (k j : K) (l : List (K × V)) → lookup j (drop k l) ≡ (if k =? j then none else lookup j l)
  unfolding lookup drop
  lookup-drop k j [] = ground arith
  lookup-drop k j ((i, w) ∷ l) =
      ground (arith, e.beq_iff k j, e.beq_iff i k, e.beq_iff i j, lookup-drop k j l)

unfoldable pub keys_of {ℓ κ} : {K : Type ℓ} {V : Type κ} → List (K × V) → List K
keys_of l = map (λ p. p.0) l

module _ {ℓ κ} {K : Type ℓ} {V : Type κ} ⦃e : Eq K⦄ (p : K → Bool) where
  pub all-keys_of :
      (l : List (K × V)) (k : K)
      → all p (keys_of l) ≡ true
      → is_some (lookup k l) ≡ true
      → p k ≡ true
  unfolding lookup keys_of
  all-keys_of [] k h m = cc
  all-keys_of ((j, v) ∷ l) k h m = ground (arith, e.beq_iff j k, all-keys_of l k)

  pub all-keys_from_lookup :
      (l : List (K × V))
      → ((k : K) → is_some (lookup k l) ≡ true → p k ≡ true)
      → all p (keys_of l) ≡ true
  unfolding lookup keys_of
  all-keys_from_lookup [] h = refl
  all-keys_from_lookup ((j, v) ∷ l) h =
      let first : p j ≡ true = h j (rw (=?_refl j) refl) in
      let later : (k : K) → is_some (lookup k l) ≡ true → p k ≡ true =
        λ k m. h k (elim (Bool-cases (j =? k)) [ inl e ↦ rw e refl | inr e ↦ rw e m ]) in
      ground (arith, first, all-keys_from_lookup l later)

module _ {ℓ κ} {K : Type ℓ} {V : Type κ} ⦃e : Eq K⦄ where
  -- No key has two entries.
  abbrev pub UniqueKeys : List (K × V) → Type κ
  UniqueKeys [] = Unit
  UniqueKeys ((k, v) ∷ l) = (lookup k l ≡ none) × UniqueKeys l

  pub put-UniqueKeys : (k : K) (v : V) (l : List (K × V)) → UniqueKeys l → UniqueKeys (put k v l)
  unfolding lookup put
  put-UniqueKeys k v [] u = (refl, tt)
  put-UniqueKeys k v ((j, w) ∷ l) u = elim (Bool-cases (j =? k)) [
    | inl h ↦ rw h u
    | inr h ↦
        let other : (k =? j) ≡ false = ground (arith, h, e.beq_iff j k, e.beq_iff k j) in
        rw h (rw (lookup-put k j v l, other) u.0, put-UniqueKeys k v l u.1)
  ]

  pub drop-UniqueKeys : (k : K) (l : List (K × V)) → UniqueKeys l → UniqueKeys (drop k l)
  unfolding lookup drop
  drop-UniqueKeys k [] u = tt
  drop-UniqueKeys k ((j, w) ∷ l) u = elim (Bool-cases (j =? k)) [
    | inl h ↦ rw h (drop-UniqueKeys k l u.1)
    | inr h ↦
        let other : (k =? j) ≡ false = ground (arith, h, e.beq_iff j k, e.beq_iff k j) in
        rw h (rw (lookup-drop k j l, other) u.0, drop-UniqueKeys k l u.1)
  ]
