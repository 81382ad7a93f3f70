-- ===== src/Dict.antt =====
-- Python's `dict` as the library uses it: entries in order of insertion, one for each key. Proofs
-- use the laws of `dict_laws`, and tests compute.
mod Assoc
pub use Assoc.{UniqueKeys, put-UniqueKeys, drop-UniqueKeys, is_some}
use Assoc.{all-keys_of, all-keys_from_lookup, lookup, put, drop, keys_of, lookup-put, lookup-drop}
use rclpy.Prelude.{
  ◌∷◌, ◌≡◌, ◌↔◌, refl, all, Bool, true, false, Option, none, some, List, [], Eq, ◌=?◌,
  if◌then◌else◌, arith,
}

pub record Dict {ℓ κ} (K : Type ℓ) (V : Type κ) : Type (ℓ ⊔ κ) where
  pub entries : List (K × V)

unfoldable pub empty {ℓ κ} : {K : Type ℓ} {V : Type κ} → Dict K V
empty = record { entries = [] }

module _ {ℓ κ} {K : Type ℓ} {V : Type κ} ⦃e : Eq K⦄ where
  -- `d[k]` and `d.get(k)`
  unfoldable pub get : Dict K V → K → Option V
  unfolding lookup
  get d k = lookup k d.entries

  -- `d[k] = v`: a key that is there keeps its place
  unfoldable pub set : Dict K V → K → V → Dict K V
  unfolding put
  set d k v = record { entries = put k v d.entries }

  -- `del d[k]`, for a key that is there
  unfoldable pub del : Dict K V → K → Dict K V
  unfolding drop
  del d k = record { entries = drop k d.entries }

  pub get-set :
      (d : Dict K V) (k j : K) (v : V) → get (set d k v) j ≡ (if k =? j then some v else get d j)
  unfolding get set
  get-set d k j v = lookup-put k j v d.entries

  pub get-del : (d : Dict K V) (k j : K) → get (del d k) j ≡ (if k =? j then none else get d j)
  unfolding get del
  get-del d k j = lookup-drop k j d.entries

  pub get-empty : (k : K) → get (empty {V = V}) k ≡ none
  unfolding get empty lookup
  get-empty k = refl

-- `d.keys()`
unfoldable pub keys {ℓ κ} : {K : Type ℓ} {V : Type κ} → Dict K V → List K
unfolding keys_of
keys d = keys_of d.entries

pub ruleset dict_laws = (get-empty, get-set, get-del)

-- A test holds for all keys exactly if it holds for all that have an entry.
pub all-keys {ℓ κ} :
    {K : Type ℓ} {V : Type κ} ⦃e : Eq K⦄
    → (p : K → Bool) (d : Dict K V)
    → (all p (keys d) ≡ true) ↔ ((k : K) → is_some (get d k) ≡ true → p k ≡ true)
unfolding keys get
all-keys p d = (λ h k m. all-keys_of p d.entries k h m, all-keys_from_lookup p d.entries)

module _ {ℓ κ} {K : Type ℓ} {V : Type κ} ⦃e : Eq K⦄ where
  -- No key has two entries, as Python guarantees.
  pub record IsUnique (d : Dict K V) : Type κ where
    pub entries : UniqueKeys d.entries

  pub set-IsUnique : (d : Dict K V) (k : K) (v : V) → IsUnique d → IsUnique (set d k v)
  unfolding set
  set-IsUnique d k v u = record { entries = put-UniqueKeys k v d.entries u.entries }

  pub del-IsUnique : (d : Dict K V) (k : K) → IsUnique d → IsUnique (del d k)
  unfolding del
  del-IsUnique d k u = record { entries = drop-UniqueKeys k d.entries u.entries }

  pub empty-IsUnique : IsUnique (empty {K = K} {V = V})
  unfolding empty
  empty-IsUnique = record { entries = tt }

  pub get-nil : (k : K) → get {V = V} (record { entries = [] }) k ≡ none
  unfolding get lookup
  get-nil k = refl

  -- The value of the first entry with a given key, in front of others.
  pub get-cons :
      (j k : K) (v : V) (l : List (K × V))
      → get (record { entries = (j, v) ∷ l }) k
        ≡ (if j =? k then some v else get (record { entries = l }) k)
  unfolding get lookup
  get-cons j k v l = refl

  pub IsUnique-cons :
      (j : K) (v : V) (l : List (K × V))
      → IsUnique (record { entries = (j, v) ∷ l })
      → (get (record { entries = l }) j ≡ none) × IsUnique (record { entries = l })
  unfolding get
  IsUnique-cons j v l u = (u.entries.0, record { entries = u.entries.1 })
