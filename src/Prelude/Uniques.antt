-- ===== src/Prelude/Uniques.antt =====
-- Lists of numbers that stand for objects, each of which occurs once.
use Prim.Native.Nat.{ℕ, suc}
use mathlib.Core.Path.{◌≡◌, refl, ap}
use mathlib.Core.Logic.{inl, inr}
use mathlib.Core.Bool.{Bool, true, false}
use mathlib.Core.Option.{none, some}
use mathlib.Core.List.{List, [], ◌∷◌, ◌++◌}
use native.Mathlib.Omega.{arith}
use rclpy.Prelude.Tests.{◌==◌, ==-refl, if◌then◌else◌, Bool-cases}
use rclpy.Prelude.Lists.{length, length-append, get_elem?, any}

-- `n in numbers`
abbrev pub contains : ℕ → List ℕ → Bool
contains n = any (λ m. m == n)

-- `numbers.remove(n)`, for a number that is there
abbrev pub remove : ℕ → List ℕ → List ℕ
remove n [] = []
remove n (x ∷ xs) = let rest = remove n xs in if x == n then xs else x ∷ rest

-- No number occurs twice.
abbrev pub Distinct : List ℕ → Type 0
Distinct [] = Unit
Distinct (x ∷ xs) = (contains x xs ≡ false) × Distinct xs

pub contains-middle :
    (x : ℕ) (xs : List ℕ) (y : ℕ) (ys : List ℕ)
    → contains x (xs ++ y ∷ ys) ≡ false
    → ((y == x) ≡ false) × (contains x (xs ++ ys) ≡ false)
contains-middle x [] y ys h = ground (arith, h)
contains-middle x (z ∷ xs) y ys h = ground (arith, h, contains-middle x xs y ys)

-- A number in the middle is neither before it nor behind it.
pub Distinct-middle :
    (xs : List ℕ) (y : ℕ) (ys : List ℕ)
    → Distinct (xs ++ y ∷ ys)
    → (contains y xs ≡ false) × Distinct (xs ++ ys)
Distinct-middle [] y ys d = (refl, d.1)
Distinct-middle (x ∷ xs) y ys d =
    let (differ, rest) = contains-middle x xs y ys d.0 in
    let (before, distinct) = Distinct-middle xs y ys d.1 in
    (ground (arith, differ, before), (rest, distinct))

pub remove-middle :
    (xs : List ℕ) (y : ℕ) (ys : List ℕ) → contains y xs ≡ false → remove y (xs ++ y ∷ ys) ≡ xs ++ ys
remove-middle [] y ys h = rw (==-refl y) refl
remove-middle (x ∷ xs) y ys h = elim (Bool-cases (x == y)) [
  | inl e ↦ (let c : true ≡ false = rw e at h in cc)
  | inr e ↦ rw e (ap (λ l. x ∷ l) (remove-middle xs y ys (rw e at h)))
]

pub get_elem?-middle :
    (xs : List ℕ) (y : ℕ) (ys : List ℕ) → get_elem? (xs ++ y ∷ ys) (length xs) ≡ some y
get_elem?-middle [] y ys = refl
get_elem?-middle (x ∷ xs) y ys = get_elem?-middle xs y ys

pub get_elem?-length : (xs : List ℕ) → get_elem? xs (length xs) ≡ none
get_elem?-length [] = refl
get_elem?-length (x ∷ xs) = get_elem?-length xs

pub get_elem?-behind : (xs : List ℕ) → get_elem? xs (suc (length xs)) ≡ none
get_elem?-behind [] = refl
get_elem?-behind (x ∷ xs) = get_elem?-behind xs

pub length-snoc : (xs : List ℕ) (x : ℕ) → length (xs ++ x ∷ []) ≡ suc (length xs)
length-snoc xs x = omega (arith, length-append xs (x ∷ []))
