-- ===== src/Time/Samples.antt =====
-- Sample times.
use rclpy.Prelude.{◌≡◌, false, ok, err, arith, refl}
use rclpy.Prelude.Int.{pos, negsuc, ◌+ℤ◌, ◌-ℤ◌, ◌*ℤ◌, div_ℤ, mod_ℤ}
use rclpy.Duration.{Duration, value_error}
use rclpy.Duration.Samples.{stamps}
use rclpy.Time.{
  Time, ros_time, steady_time, clock_eq, add, sub_time, sub_duration, seconds_nanoseconds, to_msg,
}
use rclpy.Time.Laws

abbrev early : Time
early = record { nanoseconds = pos 1_000_000_000; clock_type = ros_time }

abbrev late : Time
late = record { nanoseconds = pos 2_500_000_000; clock_type = ros_time }

abbrev steady : Time
steady = record { nanoseconds = pos 7; clock_type = steady_time }

abbrev gap : Duration
gap = record { nanoseconds = pos 1_500_000_000 }

add-early : add early gap ≡ ok late
unfolding add ◌+ℤ◌ ◌*ℤ◌
add-early = refl

-- A negative duration is no error, and a negative time is one.
sub_time_negative : sub_time early late ≡ ok (record { nanoseconds = negsuc 1_499_999_999 })
unfolding sub_time ◌-ℤ◌ ◌+ℤ◌ ◌*ℤ◌
sub_time_negative = refl

sub_duration_negative : sub_duration early gap ≡ err value_error
unfolding sub_duration ◌-ℤ◌
sub_duration_negative = refl

add-sub_time_example : (d : Duration) × (sub_time early late ≡ ok d) × (add late d ≡ ok early)
add-sub_time_example = Laws.add-sub_time early late (omega arith) (omega arith) refl

clocks_differ : clock_eq ros_time steady_time ≡ false
unfolding clock_eq
clocks_differ = refl

late-to_msg : to_msg stamps late ≡ ok (record { sec = pos 2; nanosec = 500_000_000 })
unfolding to_msg seconds_nanoseconds div_ℤ mod_ℤ
late-to_msg = refl
