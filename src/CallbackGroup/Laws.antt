-- ===== src/CallbackGroup/Laws.antt =====
-- Callback groups (rclpy/rclpy/callback_groups.py) while callbacks begin and end.
use rclpy.Prelude.{
  ℕ, ◌≡◌, ◌⊎◌, inl, inr, refl, true, false, none, some, List, [], ◌∷◌, ◌++◌, ok, ==-refl,
  one-append, none-append,
}
use rclpy.CallbackGroup.{
  CallbackGroup, reentrant, exclusive, entities, has_entity, can_execute, beginning_execution,
  ending_execution,
}

-- The entities whose callbacks have begun and not ended, as the group sees them.
abbrev pub Holds : CallbackGroup → List ℕ → Type 0
Holds (reentrant _) holders = Unit
Holds (exclusive _ none) holders = holders ≡ []
Holds (exclusive _ (some e)) holders = holders ≡ e ∷ []

-- Beginning an entity of the group either is allowed, and then it holds the group with the others, which
-- in an exclusive group are none, or is refused, and then nothing changes and there are holders; it never raises.
pub beginning_cases :
    (e : ℕ) (g : CallbackGroup) (holders : List ℕ)
    → has_entity e g ≡ true
    → Holds g holders
    → let (r, g') = beginning_execution e g in
      (entities g' ≡ entities g)
      × (((r ≡ ok true) × Holds g' (holders ++ e ∷ []))
          ⊎ ((r ≡ ok false) × (g' ≡ g) × (can_execute e g ≡ ok false)))
unfolding beginning_execution has_entity can_execute
beginning_cases e (reentrant es) holders m h = (refl, inl (refl, tt))
beginning_cases e (exclusive es none) holders m h = rw m (refl, inl (refl, rw h refl))
beginning_cases e (exclusive es (some b)) holders m h = rw m (refl, inr (refl, refl, refl))

-- A holder may end: no assertion fails, and the others hold the group as before.
pub ending-Holds :
    (e : ℕ) (g : CallbackGroup) (before after : List ℕ)
    → Holds g (before ++ e ∷ after)
    → let (r, g') = ending_execution e g in
      (r ≡ ok tt) × (entities g' ≡ entities g) × Holds g' (before ++ after)
unfolding ending_execution
ending-Holds e (reentrant es) before after h = (refl, refl, tt)
ending-Holds e (exclusive es none) before after h = none-append before e after h
ending-Holds e (exclusive es (some b)) before after h =
    let (p, q, r) = one-append b before e after h in rw (p, q, r, ==-refl b) (refl, refl, refl)
