-- ===== src/CallbackGroup.antt =====
-- rclpy/rclpy/callback_groups.py: the groups of callbacks that say which of them may run. An entity is
-- a number, and a set of weak references to entities is a list of numbers.
pub mod Laws
use rclpy.Prelude.{
  ℕ, Bool, true, false, not, Option, none, some, List, [], ◌∷◌, Result, ok, err, if◌then◌else◌,
  ◌==◌, any, contains,
}

pub data CallbackGroup : Type 0 where
  -- `ReentrantCallbackGroup`, with its entities
  reentrant : List ℕ → CallbackGroup
  -- `MutuallyExclusiveCallbackGroup`, with its entities and `_active_entity`
  exclusive : List ℕ → Option ℕ → CallbackGroup

pub data Error : Type 0 where
  assertion_error : Error

abbrev pub entities : CallbackGroup → List ℕ
entities (reentrant es) = es
entities (exclusive es _) = es

unfoldable pub add_entity : ℕ → CallbackGroup → CallbackGroup
add_entity e (reentrant es) = reentrant (if contains e es then es else e ∷ es)
add_entity e (exclusive es a) = exclusive (if contains e es then es else e ∷ es) a

unfoldable pub has_entity : ℕ → CallbackGroup → Bool
has_entity e g = contains e (entities g)

unfoldable pub can_execute : ℕ → CallbackGroup → Result Error Bool
can_execute e (reentrant es) = ok true
can_execute e (exclusive es a) =
    if not (contains e es)
    then err assertion_error
    else elim a [ none ↦ ok true | some _ ↦ ok false ]

unfoldable pub beginning_execution : ℕ → CallbackGroup → Result Error Bool × CallbackGroup
beginning_execution e (reentrant es) = (ok true, reentrant es)
beginning_execution e (exclusive es a) =
    if not (contains e es) then (err assertion_error, exclusive es a) else elim a [
      | none ↦ (ok true, exclusive es (some e))
      | some b ↦ (ok false, exclusive es (some b))
    ]

unfoldable pub ending_execution : ℕ → CallbackGroup → Result Error (Unit {0}) × CallbackGroup
ending_execution e (reentrant es) = (ok tt, reentrant es)
ending_execution e (exclusive es none) = (err assertion_error, exclusive es none)
ending_execution e (exclusive es (some b)) =
    if b == e then (ok tt, exclusive es none) else (err assertion_error, exclusive es (some b))
