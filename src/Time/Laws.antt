-- ===== src/Time/Laws.antt =====
-- Times: the range of their values, differences and sums, order, and messages.
use rclpy.Prelude.{
  ◌+◌, refl, ap, sym, ◌≡◌, ◌↔◌, Bool, true, false, not, ◌||◌, ok, err, ◌>>=◌, arith,
}
use rclpy.Prelude.Int.{
  ℤ, pos, negsuc, pos_part, neg_part, ◌+ℤ◌, ◌-ℤ◌, ◌*ℤ◌, ◌≤ℤ◌, ◌<ℤ◌, +ℤ_parts, -ℤ_parts, eq_of_parts,
  div_ℤ, ltb_ℤ, eqb_ℤ,
}
use rclpy.Duration.{Duration, type_error, MsgClass, MsgLaws, s_to_ns, int64_bound}
use rclpy.Duration.Laws.{make_nanoseconds, total_zero, total_div_mod}
use rclpy.Time.{
  ClockType, Time, IsTimePoint, clock_eq, make, add, sub_time, sub_duration, compare_by, eq, ne, lt,
  le, gt, ge, to_msg, from_msg, seconds_nanoseconds,
}

clock_eq_refl : (c : ClockType) → clock_eq c c ≡ true
unfolding clock_eq
clock_eq_refl c = ground arith

clock_eq_sound : (c d : ClockType) → clock_eq c d ≡ true → c ≡ d
unfolding clock_eq
clock_eq_sound c d h = ground arith

div_nonneg : (n : ℤ) → pos 0 ≤ℤ n → pos 0 ≤ℤ div_ℤ n s_to_ns
unfolding div_ℤ
div_nonneg (pos n) h = omega arith
div_nonneg (negsuc n) h = omega arith

-- A time is constructed exactly if neither argument is negative and the total fits.
pub make_exact :
    (s n : ℤ) (c : ClockType) (t : Time)
    → (make s n c ≡ ok t) ↔ (
        (pos 0 ≤ℤ s)
        × (pos 0 ≤ℤ n)
        × (t.nanoseconds ≡ s *ℤ pos s_to_ns +ℤ n)
        × (t.nanoseconds <ℤ pos int64_bound)
        × (t.clock_type ≡ c))
unfolding make
make_exact s n c t = (λ h. ground arith, λ h. ground arith)

make_nanoseconds_exact :
    (n : ℤ) (c : ClockType) (t : Time)
    → (make (pos 0) n c ≡ ok t) ↔ ((t.nanoseconds ≡ n) × IsTimePoint n × (t.clock_type ≡ c))
unfolding make
make_nanoseconds_exact n c t =
    let z = total_zero n in (λ h. ground (arith, z), λ h. ground (arith, z))

-- What `add` and `sub_duration` compute when they return.
pub add_exact :
    (t u : Time) (d : Duration)
    → (add t d ≡ ok u) ↔ (
        (u.nanoseconds ≡ t.nanoseconds +ℤ d.nanoseconds)
        × IsTimePoint (t.nanoseconds +ℤ d.nanoseconds)
        × (u.clock_type ≡ t.clock_type))
unfolding add
add_exact t u d = make_nanoseconds_exact _ _ u

pub sub_duration_exact :
    (t u : Time) (d : Duration)
    → (sub_duration t d ≡ ok u) ↔ (
        (u.nanoseconds ≡ t.nanoseconds -ℤ d.nanoseconds)
        × IsTimePoint (t.nanoseconds -ℤ d.nanoseconds)
        × (u.clock_type ≡ t.clock_type))
unfolding sub_duration
sub_duration_exact t u d = make_nanoseconds_exact _ _ u

-- The difference of two times of one clock always exists, though it may be negative, and the
-- second time plus the difference is the first one.
pub add-sub_time :
    (t u : Time)
    → IsTimePoint t.nanoseconds
    → IsTimePoint u.nanoseconds
    → t.clock_type ≡ u.clock_type
    → (d : Duration) × (sub_time t u ≡ ok d) × (add u d ≡ ok t)
unfolding sub_time
add-sub_time t u ht hu same = (
  record { nanoseconds = t.nanoseconds -ℤ u.nanoseconds },
  rw (same, clock_eq_refl)
      ((make_nanoseconds _ _).1 (refl, omega (arith, -ℤ_parts t.nanoseconds u.nanoseconds))),
  (add_exact u t _).1 (
    eq_of_parts _ _ (omega (arith, parts, -ℤ_parts t.nanoseconds u.nanoseconds)),
    omega (arith, parts, -ℤ_parts t.nanoseconds u.nanoseconds),
    same,
  ),
)
  where
    parts :
        let d = t.nanoseconds -ℤ u.nanoseconds in
        pos_part (u.nanoseconds +ℤ d) + neg_part u.nanoseconds + neg_part d
        ≡ neg_part (u.nanoseconds +ℤ d) + pos_part u.nanoseconds + pos_part d
    parts = +ℤ_parts u.nanoseconds (t.nanoseconds -ℤ u.nanoseconds)

-- If `t + d` exists, then `(t + d) - d` is `t`.
pub sub_duration-add :
    (t u : Time) (d : Duration)
    → IsTimePoint t.nanoseconds
    → add t d ≡ ok u
    → sub_duration u d ≡ ok t
sub_duration-add t u d h e =
    let (sum, _, clock) = (add_exact t u d).0 e in
    let back : u.nanoseconds -ℤ d.nanoseconds ≡ t.nanoseconds = eq_of_parts _ _ (
      omega (
        arith,
        +ℤ_parts t.nanoseconds d.nanoseconds,
        -ℤ_parts u.nanoseconds d.nanoseconds,
        ap pos_part sum,
        ap neg_part sum,
      )) in
    (sub_duration_exact u t d).1 (sym back, rw back h, sym clock)

-- Times of different clocks can be neither compared nor subtracted.
pub type_error_of_clocks :
    (t u : Time)
    → clock_eq t.clock_type u.clock_type ≡ false
    → (eq t u ≡ err type_error)
      × (ne t u ≡ err type_error)
      × (lt t u ≡ err type_error)
      × (le t u ≡ err type_error)
      × (gt t u ≡ err type_error)
      × (ge t u ≡ err type_error)
      × (sub_time t u ≡ err type_error)
unfolding eq ne lt le gt ge compare_by sub_time
type_error_of_clocks t u h = (rw h, rw h, rw h, rw h, rw h, rw h, rw h)

-- On one clock the comparisons return, and they agree: `<=` is `<` or `==`, `>=` is the negation
-- of `<`, `>` that of `<=`, `!=` that of `==`, and `<` excludes `==`.
pub order_cases :
    (t u : Time)
    → t.clock_type ≡ u.clock_type
    → (before : Bool) × (same : Bool) × (lt t u ≡ ok before)
      × (eq t u ≡ ok same)
      × (le t u ≡ ok (before || same))
      × (ge t u ≡ ok (not before))
      × (gt t u ≡ ok (not (before || same)))
      × (ne t u ≡ ok (not same))
      × (before ≡ true → same ≡ false)
unfolding eq ne lt le gt ge compare_by
order_cases t u h =
    let c = clock_eq_refl u.clock_type in
    (
      ltb_ℤ t.nanoseconds u.nanoseconds,
      eqb_ℤ t.nanoseconds u.nanoseconds,
      rw (h, c),
      rw (h, c),
      rw (h, c, ◌>>=◌) (ground arith),
      rw (h, c) (ground arith),
      rw (h, c) (ground arith),
      rw (h, c),
      λ b. ground arith,
    )

-- A time that the message class can store comes back from the message, on the clock it was on.
pub time_from_msg-to_msg :
    (c : MsgClass) (laws : MsgLaws c) (t : Time) {m : c.Msg}
    → IsTimePoint t.nanoseconds
    → to_msg c t ≡ ok m
    → from_msg c m t.clock_type ≡ ok t
unfolding to_msg from_msg seconds_nanoseconds
time_from_msg-to_msg c laws t {m} h e =
    let (sec, nanosec) = laws.stored _ _ m e in
    (make_exact (c.sec m) (pos (c.nanosec m)) t.clock_type t).1 (
      rw sec (div_nonneg t.nanoseconds h.0),
      omega arith,
      rw (sec, nanosec) (sym (total_div_mod t.nanoseconds)),
      h.1,
      refl,
    )
