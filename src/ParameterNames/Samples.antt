-- ===== src/ParameterNames/Samples.antt =====
-- Three parameters, "a.b", "a.c.d" and "e", and a prefix.
use rclpy.Prelude.{ℕ, ◌≡◌, ◌↔◌, refl, true, [], ◌∷◌, ◌++◌, any, keep}
use rclpy.Dict
use rclpy.Dict.{Dict}
use rclpy.ParameterNames.{
  Text, texts_eq, is_listed, holds, list_parameters, get_parameters_by_prefix,
}
use rclpy.ParameterNames.Listed.{Asked, is_parent, DistinctTexts, list_parameters-exact}
use rclpy.ParameterNames.Prefix.{full, get_parameters_by_prefix-get}

abbrev a_b : Text
a_b = b'a' ∷ b'.' ∷ b'b' ∷ []

abbrev a_c_d : Text
a_c_d = b'a' ∷ b'.' ∷ b'c' ∷ b'.' ∷ b'd' ∷ []

abbrev e : Text
e = b'e' ∷ []

abbrev a : Text
a = b'a' ∷ []

-- One level below "a".
below_a : list_parameters (a ∷ []) 1 (a_b ∷ a_c_d ∷ e ∷ []) ≡ (a_b ∷ [], a ∷ [])
unfolding list_parameters
below_a = refl

everything :
    list_parameters [] 0 (a_b ∷ a_c_d ∷ e ∷ [])
    ≡ (a_b ∷ a_c_d ∷ e ∷ [], a ∷ (b'a' ∷ b'.' ∷ b'c' ∷ []) ∷ [])
unfolding list_parameters
everything = refl

list_parameters-exact_example :
    let names = a_b ∷ a_c_d ∷ e ∷ [] in
    let r = list_parameters (a ∷ []) 1 names in
    (r.0 ≡ keep (is_listed (a ∷ []) 1) names)
    × ((s : Text) → (is_listed (a ∷ []) 1 s ≡ true) ↔ Asked (a ∷ []) 1 s)
    × ((t : Text) → holds t r.1 ≡ any (is_parent t) r.0)
    × DistinctTexts r.1
list_parameters-exact_example = list_parameters-exact (a ∷ []) 1 (a_b ∷ a_c_d ∷ e ∷ [])

abbrev parameters : Dict Text ℕ
parameters = record { entries = (a_b, 1) ∷ (a_c_d, 2) ∷ (e, 3) ∷ [] }

parameters-IsUnique : Dict.IsUnique parameters
unfolding Dict.get
parameters-IsUnique = record { entries = (refl, (refl, (refl, tt))) }

get_parameters_by_prefix-get_example :
    Dict.get (get_parameters_by_prefix a parameters) (b'b' ∷ [])
    ≡ Dict.get parameters (full a ++ b'b' ∷ [])
get_parameters_by_prefix-get_example =
    get_parameters_by_prefix-get a (b'b' ∷ []) parameters parameters-IsUnique
