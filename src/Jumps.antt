-- ===== src/Jumps.antt =====
-- rclpy/rclpy/clock.py: thresholds of time jumps, what a jump callback is registered with, and
-- sleeping until a time. The clock of the C library is what it shows and the jumps that it reports.
pub mod Threshold
pub mod Sleep
mod Samples
use rclpy.Prelude.{
  Bool, true, false, ◌&&◌, ◌||◌, not, Option, none, some, List, [], ◌∷◌, Result, ok, err, ◌>>=◌,
  if◌then◌else◌,
}
use rclpy.Prelude.Int.{ℤ, pos, leb_ℤ}
use rclpy.Duration.{Duration, Error, value_error}
use rclpy.Time
use rclpy.Time.{ClockType, clock_eq, Time}

pub record JumpThreshold : Type 0 where
  pub min_forward : Option Duration
  pub min_backward : Option Duration
  pub on_clock_change : Bool

abbrev pub not_positive : Option Duration → Bool
not_positive none = false
not_positive (some d) = leb_ℤ d.nanoseconds (pos 0)

abbrev pub not_negative : Option Duration → Bool
not_negative none = false
not_negative (some d) = leb_ℤ (pos 0) d.nanoseconds

abbrev pub is_none : Option Duration → Bool
is_none none = true
is_none (some d) = false

-- `JumpThreshold(...)`
unfoldable pub make_threshold :
    Option Duration → Option Duration → Bool → Result Error JumpThreshold
make_threshold min_forward min_backward on_clock_change =
    if not_positive min_forward
    then err value_error
    else if not_negative min_backward
    then err value_error
    else if is_none min_forward && is_none min_backward && not on_clock_change
    then err value_error
    else ok (record {
      min_forward = min_forward;
      min_backward = min_backward;
      on_clock_change = on_clock_change;
    })

abbrev pub nanoseconds_or_zero : Option Duration → ℤ
nanoseconds_or_zero none = pos 0
nanoseconds_or_zero (some d) = d.nanoseconds

-- What is given for a callback.
pub data CallbackArgument : Type 0 where
  absent callable not_callable : CallbackArgument

abbrev pub is_absent : CallbackArgument → Bool
is_absent absent = true
is_absent _ = false

abbrev pub is_not_callable : CallbackArgument → Bool
is_not_callable not_callable = true
is_not_callable _ = false

-- What `JumpHandle(...)` hands to `add_clock_callback`.
unfoldable pub register :
    CallbackArgument → CallbackArgument → JumpThreshold → Result Error (Bool × ℤ × ℤ)
register pre_callback post_callback threshold =
    if is_absent pre_callback && is_absent post_callback
    then err value_error
    else if is_not_callable pre_callback
    then err value_error
    else if is_not_callable post_callback
    then err value_error
    else ok (
      threshold.on_clock_change,
      nanoseconds_or_zero threshold.min_forward,
      nanoseconds_or_zero threshold.min_backward,
    )

-- The C library's enumeration, as far as the code tells its members apart.
pub data ClockChange : Type 0 where
  ros_time_activated ros_time_deactivated no_switch : ClockChange

-- A jump that is reported, and what the clock shows then.
pub record TimeJump : Type 0 where
  pub clock_change : ClockChange
  pub now : ℤ

abbrev pub is_switch : ClockChange → Bool
is_switch ros_time_activated = true
is_switch ros_time_deactivated = true
is_switch _ = false

-- The variables that `on_time_jump` sets: whether the time source changed, and the event.
pub record Waking : Type 0 where
  pub time_source_changed : Bool
  pub is_set : Bool

-- `self.now() >= until`
abbrev pub reached : ClockType → ℤ → Time → Result Error Bool
reached clock_type now until = Time.ge (record { nanoseconds = now; clock_type = clock_type }) until

unfoldable pub on_time_jump : ClockType → Time → TimeJump → Waking → Result Error Waking
on_time_jump clock_type until jump w =
    let changed = w.time_source_changed || is_switch jump.clock_change in
    if changed then ok (record { time_source_changed = changed; is_set = true }) else (do
      late ← reached clock_type jump.now until
      ok (record { time_source_changed = changed; is_set = w.is_set || late }))

unfoldable pub on_time_jumps : ClockType → Time → List TimeJump → Waking → Result Error Waking
unfolding on_time_jump
on_time_jumps clock_type until [] w = ok w
on_time_jumps clock_type until (jump ∷ jumps) w = do
  w' ← on_time_jump clock_type until jump w
  on_time_jumps clock_type until jumps w'

pub data SleepError : Type 0 where
  not_initialized clock_mismatch : SleepError
  raised : Error → SleepError

abbrev pub lift : {A : Type 0} → Result Error A → Result SleepError A
lift (ok a) = ok a
lift (err x) = err (raised x)

-- `sleep_until`: whether the context is valid before and after, the jumps that are reported during
-- the sleep, and what the clock shows at its end.
unfoldable pub sleep_until :
    ClockType → Time → Bool → List TimeJump → Bool → ℤ → Result SleepError Bool
unfolding on_time_jumps
sleep_until clock_type until ok_before jumps ok_after now =
    if not ok_before
    then err not_initialized
    else if not (clock_eq until.clock_type clock_type)
    then err clock_mismatch
    else (do
      w ← lift (
          on_time_jumps clock_type until jumps
            (record { time_source_changed = false; is_set = false }))
      if not ok_after || w.time_source_changed
          then ok false
          else lift (reached clock_type now until))
