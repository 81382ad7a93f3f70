-- ===== src/Time.antt =====
-- rclpy/rclpy/time.py: a point in time on a clock, as nanoseconds since the clock's epoch. Arguments
-- are integers; the branches for `float` arguments and for operands of other types are left out.
pub mod Laws
mod Samples
use rclpy.Prelude.{Bool, not, true, false, ℕ, ◌≡◌, Result, ok, err, ◌>>=◌, if◌then◌else◌}
use rclpy.Prelude.Int.{ℤ, pos, ◌+ℤ◌, ◌-ℤ◌, ◌*ℤ◌, ltb_ℤ, leb_ℤ, eqb_ℤ, div_ℤ, mod_ℤ, ◌≤ℤ◌, ◌<ℤ◌}
use rclpy.Duration
use rclpy.Duration.{
  Duration, Error, value_error, overflow_error, type_error, MsgClass, s_to_ns, int64_bound,
}

pub data ClockType : Type 0 where
  ros_time system_time steady_time : ClockType

pub record Time : Type 0 where
  pub nanoseconds : ℤ
  pub clock_type : ClockType

-- What the constructor lets through.
abbrev pub IsTimePoint : ℤ → Type 0
IsTimePoint n = (pos 0 ≤ℤ n) × (n <ℤ pos int64_bound)

unfoldable pub clock_eq : ClockType → ClockType → Bool
clock_eq ros_time ros_time = true
clock_eq system_time system_time = true
clock_eq steady_time steady_time = true
clock_eq _ _ = false

unfoldable pub make : ℤ → ℤ → ClockType → Result Error Time
make seconds nanoseconds clock_type =
    if ltb_ℤ seconds (pos 0)
    then err value_error
    else if ltb_ℤ nanoseconds (pos 0)
    then err value_error
    else let total = seconds *ℤ pos s_to_ns +ℤ nanoseconds in
      if leb_ℤ (pos int64_bound) total
      then err overflow_error
      else ok (record { nanoseconds = total; clock_type = clock_type })

pub seconds_nanoseconds : Time → ℤ × ℕ
seconds_nanoseconds self = (div_ℤ self.nanoseconds s_to_ns, mod_ℤ self.nanoseconds s_to_ns)

-- An overflow error is raised again as one, and a value error passes.
pub add : Time → Duration → Result Error Time
unfolding make
add self other = make (pos 0) (self.nanoseconds +ℤ other.nanoseconds) self.clock_type

-- `time - time`: a value error is raised again as one, and an overflow error passes.
pub sub_time : Time → Time → Result Error Duration
unfolding Duration.make clock_eq
sub_time self other =
    if not (clock_eq self.clock_type other.clock_type)
    then err type_error
    else Duration.make (pos 0) (self.nanoseconds -ℤ other.nanoseconds)

-- `time - duration`.
pub sub_duration : Time → Duration → Result Error Time
unfolding make
sub_duration self other = make (pos 0) (self.nanoseconds -ℤ other.nanoseconds) self.clock_type

-- The comparisons refuse times of different clocks.
unfoldable pub compare_by : (ℤ → ℤ → Bool) → Time → Time → Result Error Bool
unfolding clock_eq
compare_by test self other =
    if not (clock_eq self.clock_type other.clock_type)
    then err type_error
    else ok (test self.nanoseconds other.nanoseconds)

pub eq : Time → Time → Result Error Bool
unfolding compare_by
eq = compare_by eqb_ℤ

pub ne : Time → Time → Result Error Bool
unfolding eq
ne self other = do same ← eq self other; ok (not same)

pub lt : Time → Time → Result Error Bool
unfolding compare_by
lt = compare_by ltb_ℤ

pub le : Time → Time → Result Error Bool
unfolding compare_by
le = compare_by leb_ℤ

pub gt : Time → Time → Result Error Bool
unfolding compare_by
gt = compare_by (λ a b. ltb_ℤ b a)

unfoldable pub ge : Time → Time → Result Error Bool
unfolding compare_by
ge = compare_by (λ a b. leb_ℤ b a)

module _ (c : MsgClass) where
  open c use {Msg, new, sec, nanosec}

  pub to_msg : Time → Result Error Msg
  unfolding seconds_nanoseconds
  to_msg self = let (seconds, nanoseconds) = seconds_nanoseconds self in new seconds nanoseconds

  pub from_msg : Msg → ClockType → Result Error Time
  unfolding make
  from_msg msg clock_type = make (sec msg) (pos (nanosec msg)) clock_type
