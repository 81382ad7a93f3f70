-- ===== src/Jumps/Samples.antt =====
-- A sleep of three seconds, and thresholds.
use rclpy.Prelude.{
  ◌≡◌, refl, Bool, true, false, ◌&&◌, not, none, some, List, [], ◌∷◌, all, ok, err, if◌then◌else◌,
}
use rclpy.Prelude.Int.{ℤ, pos, leb_ℤ}
use rclpy.Duration.{Duration}
use rclpy.Time
use rclpy.Time.{ros_time, clock_eq, Time}
use rclpy.Jumps.{
  absent, callable, JumpThreshold, make_threshold, register, no_switch, ros_time_activated,
  TimeJump, on_time_jumps, not_initialized, clock_mismatch, sleep_until,
}
use rclpy.Jumps.Threshold.{bound_of, register-read}
use rclpy.Jumps.Sleep.{quiet, sleeps_on, sleep_until-exact}

abbrev three : Time
three = record { nanoseconds = pos 3; clock_type = ros_time }

abbrev late : List TimeJump
late = record { clock_change = no_switch; now = pos 5 } ∷ []

abbrev switching : List TimeJump
switching = record { clock_change = ros_time_activated; now = pos 5 } ∷ []

slept : sleep_until ros_time three true late true (pos 5) ≡ ok true
unfolding sleep_until Time.ge clock_eq
slept = refl

woken : sleep_until ros_time three true switching true (pos 5) ≡ ok false
unfolding sleep_until clock_eq
woken = refl

sleep_until-exact_example :
    (sleep_until ros_time three true late true (pos 5) ≡ (
      if not true
      then err not_initialized
      else if not (clock_eq three.clock_type ros_time)
      then err clock_mismatch
      else ok (
          true
          && all (λ (j : TimeJump). quiet j.clock_change) late
          && leb_ℤ three.nanoseconds (pos 5))))
    × (on_time_jumps ros_time three late (record { time_source_changed = false; is_set = false })
        ≡ ok (record {
          time_source_changed = not (all (λ (j : TimeJump). quiet j.clock_change) late);
          is_set = not (all (sleeps_on three) late);
        }))
sleep_until-exact_example = sleep_until-exact ros_time three true late true (pos 5)

abbrev forward : Duration
forward = record { nanoseconds = pos 1 }

abbrev threshold : JumpThreshold
threshold = record { min_forward = some forward; min_backward = none; on_clock_change = true }

threshold-made : make_threshold (some forward) none true ≡ ok threshold
unfolding make_threshold
threshold-made = refl

register-read_example :
    (args : Bool × ℤ × ℤ) × (register absent callable threshold ≡ ok args)
    × (threshold.on_clock_change ≡ args.0)
    × (threshold.min_forward ≡ bound_of args.1)
    × (threshold.min_backward ≡ bound_of args.2)
register-read_example =
    register-read (some forward) none true absent callable threshold threshold-made refl refl refl
