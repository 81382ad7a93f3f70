-- ===== src/Duration/Laws.antt =====
-- Durations: the range of their values, sums and differences, order, and messages.
use rclpy.Prelude.{ap, sym, not, ◌≡◌, ◌↔◌, true, false, ◌||◌, ok, err, arith}
use rclpy.Prelude.Int.{
  ℤ, pos, negsuc, pos_part, neg_part, ◌+ℤ◌, ◌-ℤ◌, ◌*ℤ◌, div_ℤ, mod_ℤ, +ℤ_parts, -ℤ_parts,
  eq_of_parts,
}
use rclpy.Duration.{
  Duration, IsInt64, make, add, sub, eq, ne, lt, le, gt, ge, MsgClass, MsgLaws, to_msg, from_msg,
  s_to_ns, Error, overflow_error,
}

pub total_zero : (n : ℤ) → pos 0 *ℤ pos s_to_ns +ℤ n ≡ n
unfolding ◌*ℤ◌ ◌+ℤ◌
total_zero n = ground arith

pub make_iff :
    (s n : ℤ) (d : Duration)
    → (make s n ≡ ok d) ↔ ((d.nanoseconds ≡ s *ℤ pos s_to_ns +ℤ n) × IsInt64 d.nanoseconds)
unfolding make
make_iff s n d = (λ h. ground arith, λ h. ground arith)

-- The constructor returns the number of nanoseconds that the seconds and nanoseconds make, exactly if
-- an int64_t holds it. If none holds it, then it raises an overflow error, and it raises nothing else.
pub make_exact :
    (s n : ℤ)
    → ((d : Duration)
        → (make s n ≡ ok d) ↔ ((d.nanoseconds ≡ s *ℤ pos s_to_ns +ℤ n) × IsInt64 d.nanoseconds))
      × ((IsInt64 (s *ℤ pos s_to_ns +ℤ n) → ⊥) → make s n ≡ err overflow_error)
      × ((e : Error) → make s n ≡ err e → e ≡ overflow_error)
unfolding make
make_exact s n = (λ d. make_iff s n d, λ h. ground (arith, h), λ e h. ground arith)

pub total_div_mod : (n : ℤ) → div_ℤ n s_to_ns *ℤ pos s_to_ns +ℤ pos (mod_ℤ n s_to_ns) ≡ n
unfolding div_ℤ mod_ℤ ◌*ℤ◌ ◌+ℤ◌
total_div_mod (pos n) = ground arith
total_div_mod (negsuc n) = ground arith

-- A constructor call with nanoseconds alone.
pub make_nanoseconds :
    (n : ℤ) (d : Duration) → (make (pos 0) n ≡ ok d) ↔ ((d.nanoseconds ≡ n) × IsInt64 d.nanoseconds)
make_nanoseconds n d = rw (total_zero n) at (make_iff (pos 0) n d)

-- What `add` and `sub` compute when they return.
pub add_exact :
    (a b c : Duration)
    → (add a b ≡ ok c) ↔ ((c.nanoseconds ≡ b.nanoseconds +ℤ a.nanoseconds) × IsInt64 c.nanoseconds)
unfolding add
add_exact a b c = make_nanoseconds _ c

pub sub_exact :
    (a b c : Duration)
    → (sub a b ≡ ok c) ↔ ((c.nanoseconds ≡ a.nanoseconds -ℤ b.nanoseconds) × IsInt64 c.nanoseconds)
unfolding sub
sub_exact a b c = make_nanoseconds _ c

-- If `a + b` does not overflow, then `(a + b) - b` is `a`.
pub sub-add : (a b c : Duration) → IsInt64 a.nanoseconds → add a b ≡ ok c → sub c b ≡ ok a
sub-add a b c h e =
    let (sum, _) = (add_exact a b c).0 e in
    (sub_exact c b a).1 (
      eq_of_parts _ _ (
          omega (
            arith,
            +ℤ_parts b.nanoseconds a.nanoseconds,
            -ℤ_parts c.nanoseconds b.nanoseconds,
            ap pos_part sum,
            ap neg_part sum,
          )),
      h,
    )

-- Addition does not depend on the order of its arguments, overflow included.
pub add_comm : (a b : Duration) → add a b ≡ add b a
unfolding add
add_comm a b = ap (make (pos 0)) (
    eq_of_parts _ _
      (omega (arith, +ℤ_parts b.nanoseconds a.nanoseconds, +ℤ_parts a.nanoseconds b.nanoseconds)))

-- A duration is before, equal to or behind another, and `<=` is `<` or `==`.
pub compare_cases :
    (a b : Duration)
    → (le a b ≡ (lt a b || eq a b))
      × (ge a b ≡ not (lt a b))
      × (gt a b ≡ not (le a b))
      × (ne a b ≡ not (eq a b))
      × (lt a b ≡ true → eq a b ≡ false)
unfolding le lt eq gt ge ne
compare_cases a b = (ground arith, ground arith, ground arith, ground arith, λ h. ground arith)

-- A duration that the message class can store comes back from the message.
pub from_msg-to_msg :
    (c : MsgClass) (laws : MsgLaws c) (d : Duration) {m : c.Msg}
    → IsInt64 d.nanoseconds
    → to_msg c d ≡ ok m
    → from_msg c m ≡ ok d
unfolding to_msg from_msg
from_msg-to_msg c laws d {m} h e =
    let (sec, nanosec) = laws.stored _ _ m e in
    (make_iff _ _ d).1 (rw (sec, nanosec) (sym (total_div_mod d.nanoseconds)), h)
