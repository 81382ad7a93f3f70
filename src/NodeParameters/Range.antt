-- ===== src/NodeParameters/Range.antt =====
-- The integer range check (rclpy/rclpy/node.py, `_apply_integer_range`) and its specification.
use native.Mathlib.Nat.{div-add-mod', mul-mod_left}
use rclpy.Prelude.{
  ℕ, ◌+◌, ◌-◌, ◌*◌, ◌/◌, ◌%◌, ◌≡◌, ◌↔◌, ◌⊎◌, inl, inr, ap, String, Bool, true, arith, ◌==◌, ◌&&◌,
  ◌||◌, not, if◌then◌else◌,
}
use rclpy.Prelude.Int.{
  ℤ, pos, pos_part, neg_part, ◌+ℤ◌, ◌-ℤ◌, ◌<ℤ◌, ltb_ℤ, eqb_ℤ, mod_ℤ, +ℤ_parts, -ℤ_parts,
  eq_of_parts,
}
use rclpy.NodeParameters.{Outcome, IntegerRange, successful, failed, out_of_range, not_a_step}
use rclpy.NodeParameters.Apply.{apply_integer_range, min_ℤ, max_ℤ}

-- At an end of the range, or strictly inside it and, where the step is not 0, a whole number of
-- steps above the lower end.
abbrev pub IsInRange : ℤ → IntegerRange → Type 0
IsInRange v r =
    let low = min_ℤ r.from_value r.to_value in
    let high = max_ℤ r.from_value r.to_value in
    (v ≡ low)
    ⊎ ((v ≡ high)
        ⊎ ((low <ℤ v) × (v <ℤ high) × ((r.step ≡ 0) ⊎ ((k : ℕ) × (v ≡ low +ℤ pos (k * r.step))))))

-- How far `v` lies above `low`.
abbrev above : ℤ → ℤ → ℕ
above v low = pos_part v + neg_part low - (neg_part v + pos_part low)

sub_above : (v low : ℤ) → low <ℤ v → v -ℤ low ≡ pos (above v low)
sub_above v low h = eq_of_parts _ _ (omega (arith, -ℤ_parts v low))

-- A difference that the step divides is a number of steps, and the other way round.
steps_of_mod :
    (v low : ℤ) (s : ℕ) → low <ℤ v → mod_ℤ (v -ℤ low) s ≡ 0 → (k : ℕ) × (v ≡ low +ℤ pos (k * s))
unfolding mod_ℤ
steps_of_mod v low s h e =
    let m = above v low in
    let e' : m % s ≡ 0 = rw (sub_above v low h) at e in
    (m / s, eq_of_parts _ _ (omega (arith, div-add-mod' m s, +ℤ_parts low (pos (m / s * s)))))

mod_of_steps : (v low : ℤ) (s k : ℕ) → low <ℤ v → v ≡ low +ℤ pos (k * s) → mod_ℤ (v -ℤ low) s ≡ 0
unfolding mod_ℤ
mod_of_steps v low s k h e =
    let m : above v low ≡ k * s =
      omega (arith, +ℤ_parts low (pos (k * s)), ap pos_part e, ap neg_part e) in
    rw (sub_above v low h, m) (mul-mod_left k s)

-- The tests of the check, over the ends of the range.
abbrev tests : ℤ → ℤ → ℕ → ℤ → Bool
tests low high step v =
    (eqb_ℤ v low || eqb_ℤ v high)
    || ((ltb_ℤ low v && ltb_ℤ v high) && not (not (step == 0) && not (mod_ℤ (v -ℤ low) step == 0)))

abbrev Within : ℤ → ℤ → ℕ → ℤ → Type 0
Within low high step v =
    (v ≡ low)
    ⊎ ((v ≡ high)
        ⊎ ((low <ℤ v) × (v <ℤ high) × ((step ≡ 0) ⊎ ((k : ℕ) × (v ≡ low +ℤ pos (k * step))))))

Within-tests :
    (low high : ℤ) (step : ℕ) (v : ℤ) → tests low high step v ≡ true → Within low high step v
Within-tests low high step v h =
    ground (arith, steps_of_mod v low step, eq_of_parts v low, eq_of_parts v high)

tests-Within :
    (low high : ℤ) (step : ℕ) (v : ℤ) → Within low high step v → tests low high step v ≡ true
tests-Within low high step v (inl e) = ground arith
tests-Within low high step v (inr (inl e)) = ground arith
tests-Within low high step v (inr (inr (a, b, inl z))) = ground arith
tests-Within low high step v (inr (inr (a, b, inr (k, e)))) =
    ground (arith, mod_of_steps v low step k a e)

abbrev decide : String → ℕ → ℤ → ℤ → ℤ → Outcome
decide name step v low high =
    if eqb_ℤ v low || eqb_ℤ v high
    then successful
    else if not (ltb_ℤ low v && ltb_ℤ v high)
    then failed (out_of_range name)
    else if not (step == 0) && not (mod_ℤ (v -ℤ low) step == 0)
    then failed (not_a_step name)
    else successful

decide_iff :
    (name : String) (step : ℕ) (v low high : ℤ)
    → (decide name step v low high ≡ successful) ↔ (tests low high step v ≡ true)
decide_iff name step v low high = (λ h. ground arith, λ h. ground arith)

-- The check is successful exactly if the value is in the range.
pub apply_integer_range_iff :
    (name : String) (v : ℤ) (r : IntegerRange)
    → (apply_integer_range name v r ≡ successful) ↔ IsInRange v r
unfolding apply_integer_range
apply_integer_range_iff name v r =
    let low = min_ℤ r.from_value r.to_value in
    let high = max_ℤ r.from_value r.to_value in
    let decided = decide_iff name r.step v low high in
    (
      λ h. Within-tests low high r.step v (decided.0 h),
      λ h. decided.1 (tests-Within low high r.step v h),
    )
