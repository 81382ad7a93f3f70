-- ===== src/ParameterNames.antt =====
-- rclpy/rclpy/node.py, the methods of BaseNode that look into the names of parameters: list_parameters and
-- get_parameters_by_prefix. A name is the list of its code points.
pub mod Segments
pub mod Listed
pub mod Prefix
mod Samples
use rclpy.Prelude.{
  ℕ, zero, suc, ◌+◌, ◌≡◌, ◌↔◌, refl, ap, Bool, true, false, ◌&&◌, ◌||◌, not, Option, none, some,
  List, [], ◌∷◌, ◌++◌, any, length, if◌then◌else◌, ◌==◌, ==-eq, ==-refl, ltb, Eq, Bool-cases, arith,
}
use rclpy.Dict
use rclpy.Dict.{Dict}

abbrev pub Text : Type 0
Text = List ℕ

-- `PARAMETER_SEPARATOR_STRING`, "."
abbrev pub separator : ℕ
separator = 46

abbrev pub text_eq : Text → Text → Bool
text_eq [] [] = true
text_eq (x ∷ xs) (y ∷ ys) = (x == y) && text_eq xs ys
text_eq _ _ = false

text_eq_sound : (xs ys : Text) → text_eq xs ys ≡ true → xs ≡ ys
text_eq_sound [] [] h = refl
text_eq_sound (x ∷ xs) (y ∷ ys) h = ground (arith, text_eq_sound xs ys, h)
text_eq_sound [] (y ∷ ys) h = cc
text_eq_sound (x ∷ xs) [] h = cc

text_eq_refl : (xs : Text) → text_eq xs xs ≡ true
text_eq_refl [] = refl
text_eq_refl (x ∷ xs) = ground (arith, text_eq_refl xs)

pub text_eq_iff : (xs ys : Text) → (text_eq xs ys ≡ true) ↔ (xs ≡ ys)
text_eq_iff xs ys = (text_eq_sound xs ys, λ e. rw e (text_eq_refl ys))

instance abbrev pub texts_eq : Eq Text
texts_eq = record { beq = text_eq; beq_iff = text_eq_iff }

-- `s.startswith(prefix)`
unfoldable pub starts_with : Text → Text → Bool
starts_with [] s = true
starts_with (p ∷ prefix) [] = false
starts_with (p ∷ prefix) (x ∷ s) = (p == x) && starts_with prefix s

-- `s[n:]`
unfoldable pub drop : ℕ → Text → Text
drop zero s = s
drop (suc n) [] = []
drop (suc n) (x ∷ s) = drop n s

-- `s.count(".")`
unfoldable pub count_separators : Text → ℕ
count_separators [] = 0
count_separators (x ∷ s) =
    let rest = count_separators s in if x == separator then suc rest else rest

-- `s[:s.rfind(".")]`, where there is a separator.
unfoldable pub before_last_separator : Text → Option Text
before_last_separator [] = none
before_last_separator (x ∷ s) = elim (before_last_separator s) [
  | some prefix ↦ some (x ∷ prefix)
  | none ↦ if x == separator then some [] else none
]

-- The test for one prefix in the loop of `list_parameters`; depth 0 is DEPTH_RECURSIVE.
unfoldable pub prefix_matches : ℕ → Text → Text → Bool
unfolding starts_with drop count_separators
prefix_matches depth param_name prefix =
    text_eq param_name prefix
    || (starts_with (prefix ++ separator ∷ []) param_name
        && (depth == 0 || ltb (count_separators (drop (length prefix + 1) param_name)) depth))

-- Whether a name gets into the result.
unfoldable pub is_listed : List Text → ℕ → Text → Bool
unfolding prefix_matches
is_listed [] depth param_name = depth == 0 || ltb (count_separators param_name) depth
is_listed prefixes depth param_name = any (prefix_matches depth param_name) prefixes

-- `x in texts`
abbrev pub holds : Text → List Text → Bool
holds t = any (λ (s : Text). text_eq s t)

-- What a listed name adds to the prefixes of the result.
unfoldable pub add_prefix : Text → List Text → List Text
unfolding before_last_separator
add_prefix param_name prefixes = elim (before_last_separator param_name) [
  | none ↦ prefixes
  | some prefix ↦ if holds prefix prefixes then prefixes else prefixes ++ prefix ∷ []
]

-- The loop of `list_parameters`: the names and the prefixes of the result.
unfoldable pub list_loop : List Text → ℕ → List Text → List Text → List Text → List Text × List Text
unfolding is_listed add_prefix
list_loop prefixes depth [] found found_prefixes = (found, found_prefixes)
list_loop prefixes depth (param_name ∷ names) found found_prefixes =
    list_loop prefixes depth names
      (if is_listed prefixes depth param_name then found ++ param_name ∷ [] else found)
      (if is_listed prefixes depth param_name
        then add_prefix param_name found_prefixes
        else found_prefixes)

-- `list_parameters`, behind the tests of its arguments: the prefixes are strings, and a depth below zero, for which it
-- raises a ValueError, is not a natural number.
unfoldable pub list_parameters : List Text → ℕ → List Text → List Text × List Text
unfolding list_loop
list_parameters prefixes depth names = list_loop prefixes depth names [] []

module _ {V : Type 0} where
  -- The comprehension of `get_parameters_by_prefix`, which sets one entry after the other.
  unfoldable pub collect : Text → List (Text × V) → Dict Text V → Dict Text V
  unfolding starts_with drop
  collect prefix [] result = result
  collect prefix ((param_name, param_value) ∷ items) result = collect prefix items (
      if starts_with prefix param_name
      then Dict.set result (drop (length prefix) param_name) param_value
      else result)

  unfoldable pub get_parameters_by_prefix : Text → Dict Text V → Dict Text V
  unfolding collect
  get_parameters_by_prefix [] parameters = collect [] parameters.entries Dict.empty
  get_parameters_by_prefix prefix parameters =
      collect (prefix ++ separator ∷ []) parameters.entries Dict.empty
