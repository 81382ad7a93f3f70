-- ===== src/Future/Waiting.antt =====
-- Taking a callback back from a future (rclpy/rclpy/task.py, `remove_done_callback`).
use rclpy.Prelude.{
  ℕ, suc, ◌≡◌, subst, ◌⊎◌, inl, inr, refl, sym, true, false, Option, none, some, List, [], ◌∷◌,
  if◌then◌else◌, Bool-cases, Option-cases, arith,
}
use rclpy.Future.{
  Waiter, callback, task, Future, is_pending, waiter_eq, is_in, remove_first, remove_done_callback,
}
use rclpy.Future.Dispatch.{IsSettled}

-- How often a waiter waits.
abbrev pub count : Waiter → List Waiter → ℕ
count w [] = 0
count w (x ∷ xs) = if waiter_eq x w then suc (count w xs) else count w xs

waiter_eq_trans : (x w v : Waiter) → waiter_eq x w ≡ true → waiter_eq x v ≡ waiter_eq w v
waiter_eq_trans (callback a) (callback b) (callback c) h = ground arith
waiter_eq_trans (callback a) (callback b) (task c) h = refl
waiter_eq_trans (task a) (task b) (task c) h = ground arith
waiter_eq_trans (task a) (task b) (callback c) h = refl
waiter_eq_trans (callback a) (task b) v h = cc
waiter_eq_trans (task a) (callback b) v h = cc

-- What is left after one occurrence was removed, if there was one.
abbrev Less : Waiter → List Waiter → Option (List Waiter) → Type 0
Less w xs none = is_in w xs ≡ false
Less w xs (some ys) =
    (is_in w xs ≡ true)
    × ((v : Waiter) → count v xs ≡ (if waiter_eq w v then suc (count v ys) else count v ys))

-- Taking `w` from behind an `x` that is not it.
cons-Less :
    (w x : Waiter) (xs : List Waiter) (o : Option (List Waiter))
    → waiter_eq x w ≡ false
    → Less w xs o
    → Less w (x ∷ xs) (elim o [ none ↦ none | some xs' ↦ some (x ∷ xs') ])
cons-Less w x xs none e h = ground (arith, e, h)
cons-Less w x xs (some ys) e (there, less) = (ground (arith, there), λ v. ground (arith, less v))

here-Less : (w x : Waiter) (xs : List Waiter) → waiter_eq x w ≡ true → Less w (x ∷ xs) (some xs)
here-Less w x xs e = (ground (arith, e), λ v. ground (arith, waiter_eq_trans x w v e))

remove_first-Less : (w : Waiter) (xs : List Waiter) → Less w xs (remove_first w xs)
unfolding remove_first
remove_first-Less w [] = refl
remove_first-Less w (x ∷ xs) =
    let rest = remove_first-Less w xs in
    elim (Bool-cases (waiter_eq x w)) [
      | inl e ↦ rw e (here-Less w x xs e)
      | inr e ↦ rw e (cons-Less w x xs (remove_first w xs) e rest)
    ]

module _ {V E : Type 0} where
  -- Taking a callback back returns whether it was waiting. If it was, then it waits once less, and everyone
  -- else as often as before; if not, or if the future is not pending any more, nothing changes.
  pub remove_exact :
      (c : ℕ) (f : Future V E)
      → IsSettled f
      → let (r, f') = remove_done_callback c f in
        (r ≡ is_in (callback c) f.callbacks)
        × ((r ≡ true)
              × ((v : Waiter)
                  → count v f.callbacks ≡ (
                      if waiter_eq (callback c) v
                      then suc (count v f'.callbacks)
                      else count v f'.callbacks))
              × (is_pending f ≡ true)
            ⊎ ((r ≡ false) × (f' ≡ f)))
  unfolding remove_done_callback
  remove_exact c f s =
      let known = remove_first-Less (callback c) f.callbacks in
      elim (Option-cases (remove_first (callback c) f.callbacks)) [
        | inl e ↦
            let absent : Less (callback c) f.callbacks none =
              subst (Less (callback c) f.callbacks) e known in
            rw (e, remove_done_callback) (sym absent, inr (refl, refl))
        | inr (rest, e) ↦
            let less : Less (callback c) f.callbacks (some rest) =
              subst (Less (callback c) f.callbacks) e known in
            rw (e, remove_done_callback) (sym less.0, inl (refl, less.1, still_pending less.0))
      ]
    where
      still_pending : is_in (callback c) f.callbacks ≡ true → is_pending f ≡ true
      still_pending m = elim (Bool-cases (is_pending f)) [
        | inl p ↦ p
        | inr p ↦ (let m' : false ≡ true = rw (s.empty p) at m in cc)
      ]
