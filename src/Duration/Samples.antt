-- ===== src/Duration/Samples.antt =====
-- Sample durations, and a message class as it is generated: `sec` is an int32, `nanosec` a uint32.
use rclpy.Prelude.{ℕ, ◌-◌, ◌^◌, ◌||◌, ◌≡◌, ◌↔◌, ok, err, if◌then◌else◌, arith, leb, refl}
use rclpy.Prelude.Int.{ℤ, pos, negsuc, ltb_ℤ, leb_ℤ, ◌+ℤ◌, ◌*ℤ◌, div_ℤ, mod_ℤ}
use rclpy.Duration.{
  s_to_ns, Error, value_error, overflow_error, Duration, MsgClass, MsgLaws, IsInt64, make, add,
  to_msg, from_msg,
}
use rclpy.Duration.Laws

pub record Stamp : Type 0 where
  pub sec : ℤ
  pub nanosec : ℕ

abbrev pub stamps : MsgClass
stamps = record {
  Msg = Stamp;
  new = λ s n.
      if leb_ℤ (pos (2 ^ 31)) s || ltb_ℤ s (negsuc (2 ^ 31 - 1)) || leb (2 ^ 32) n
      then err value_error
      else ok (record { sec = s; nanosec = n });
  sec = λ m. m.sec;
  nanosec = λ m. m.nanosec;
}

pub stored : (s : ℤ) (n : ℕ) (m : Stamp) → stamps.new s n ≡ ok m → (m.sec ≡ s) × (m.nanosec ≡ n)
stored s n m h = (ground arith, ground arith)

abbrev pub stamps_laws : MsgLaws stamps
stamps_laws = record { stored = stored }

abbrev half : Duration
half = record { nanoseconds = negsuc 499_999_999 }

abbrev two : Duration
two = record { nanoseconds = pos 2_000_000_000 }

abbrev sum : Duration
sum = record { nanoseconds = pos 1_500_000_000 }

add-half : add half two ≡ ok sum
unfolding add ◌+ℤ◌ ◌*ℤ◌
add-half = refl

make_overflow : make (pos 9_223_372_036) (pos 854_775_808) ≡ err overflow_error
unfolding make ◌+ℤ◌ ◌*ℤ◌
make_overflow = refl

make_exact_example :
    ((d : Duration)
      → (make (pos 1) (pos 500_000_000) ≡ ok d)
        ↔ ((d.nanoseconds ≡ pos 1 *ℤ pos s_to_ns +ℤ pos 500_000_000) × IsInt64 d.nanoseconds))
    × ((IsInt64 (pos 1 *ℤ pos s_to_ns +ℤ pos 500_000_000) → ⊥)
        → make (pos 1) (pos 500_000_000) ≡ err overflow_error)
    × ((e : Error) → make (pos 1) (pos 500_000_000) ≡ err e → e ≡ overflow_error)
make_exact_example = Laws.make_exact (pos 1) (pos 500_000_000)

half-to_msg : to_msg stamps half ≡ ok (record { sec = negsuc 0; nanosec = 500_000_000 })
unfolding to_msg div_ℤ mod_ℤ
half-to_msg = refl

from_msg-to_msg_example :
    from_msg stamps (record { sec = negsuc 0; nanosec = 500_000_000 }) ≡ ok half
from_msg-to_msg_example = Laws.from_msg-to_msg stamps stamps_laws half (omega arith) half-to_msg
