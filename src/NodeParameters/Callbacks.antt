-- ===== src/NodeParameters/Callbacks.antt =====
-- The lists of callbacks of a node's parameters (rclpy/rclpy/node.py): adding puts a callback in
-- front, removing takes the first that is the given one out and raises a ValueError if there is none.
-- What is added is callable.
use rclpy.Prelude.{ℕ, Bool, Option, none, some, List, [], ◌∷◌, ok, err, if◌then◌else◌, ◌==◌}
use rclpy.Parameter.{Parameter}
use rclpy.NodeParameters.{value_error, Outcome, Callback, Node, Action}

-- `list.remove`
unfoldable pub remove_callback : {A : Type 0} → (A → Bool) → List A → Option (List A)
remove_callback is_it [] = none
remove_callback is_it (x ∷ xs) =
    let rest = remove_callback is_it xs in
    if is_it x then some xs else elim rest [ none ↦ none | some ys ↦ some (x ∷ ys) ]

module _ {F : Type 0} where
  unfoldable pub add_pre_set_parameters_callback :
      Callback (List (Parameter F)) (List (Parameter F)) → Node F → Node F
  add_pre_set_parameters_callback c self = record self {
    pre_set_parameters_callbacks = c ∷ self.pre_set_parameters_callbacks;
  }

  unfoldable pub add_on_set_parameters_callback :
      Callback (List (Parameter F)) (Option Outcome) → Node F → Node F
  add_on_set_parameters_callback c self = record self {
    on_set_parameters_callbacks = c ∷ self.on_set_parameters_callbacks;
  }

  unfoldable pub add_post_set_parameters_callback : ℕ → Node F → Node F
  add_post_set_parameters_callback ident self = record self {
    post_set_parameters_callbacks = ident ∷ self.post_set_parameters_callbacks;
  }

  unfoldable pub remove_pre_set_parameters_callback : ℕ → Action F (Unit {0})
  unfolding remove_callback
  remove_pre_set_parameters_callback ident self =
      elim (remove_callback (λ c. c.ident == ident) self.pre_set_parameters_callbacks) [
        | none ↦ (err value_error, self)
        | some cs ↦ (ok tt, record self { pre_set_parameters_callbacks = cs })
      ]

  unfoldable pub remove_on_set_parameters_callback : ℕ → Action F (Unit {0})
  unfolding remove_callback
  remove_on_set_parameters_callback ident self =
      elim (remove_callback (λ c. c.ident == ident) self.on_set_parameters_callbacks) [
        | none ↦ (err value_error, self)
        | some cs ↦ (ok tt, record self { on_set_parameters_callbacks = cs })
      ]

  unfoldable pub remove_post_set_parameters_callback : ℕ → Action F (Unit {0})
  unfolding remove_callback
  remove_post_set_parameters_callback ident self =
      elim (remove_callback (λ i. i == ident) self.post_set_parameters_callbacks) [
        | none ↦ (err value_error, self)
        | some cs ↦ (ok tt, record self { post_set_parameters_callbacks = cs })
      ]
