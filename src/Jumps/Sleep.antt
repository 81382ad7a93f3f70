-- ===== src/Jumps/Sleep.antt =====
-- How sleeping until a time ends (rclpy/rclpy/clock.py, `sleep_until`).
use rclpy.Prelude.{
  ◌≡◌, ◌∙◌, ap, inl, inr, refl, Bool, true, false, ◌&&◌, ◌||◌, not, List, [], ◌∷◌, any, all, Result,
  ok, err, if◌then◌else◌, arith, Bool-cases,
}
use rclpy.Prelude.Int.{ℤ, leb_ℤ, ltb_ℤ}
use rclpy.Time
use rclpy.Time.{ClockType, ros_time, system_time, steady_time, clock_eq, Time}
use rclpy.Jumps.{
  ClockChange, no_switch, ros_time_activated, ros_time_deactivated, TimeJump, is_switch, Waking,
  reached, on_time_jump, on_time_jumps, not_initialized, clock_mismatch, SleepError, sleep_until,
}

reached-ok :
    (c : ClockType) (now : ℤ) (until : Time)
    → clock_eq until.clock_type c ≡ true
    → reached c now until ≡ ok (leb_ℤ until.nanoseconds now)
unfolding Time.ge Time.compare_by clock_eq
reached-ok c now until h = ground arith

clock_eq_refl : (c : ClockType) → clock_eq c c ≡ true
unfolding clock_eq
clock_eq_refl c = ground arith

-- The event is set by a jump that switches the time source or ends late enough.
abbrev pub wakes : Time → TimeJump → Bool
wakes until jump = is_switch jump.clock_change || leb_ℤ until.nanoseconds jump.now

module _ (c : ClockType) (until : Time) (h : clock_eq until.clock_type c ≡ true) where
  -- Who has seen a switch is awake.
  abbrev Awake : Waking → Type 0
  Awake w = w.time_source_changed ≡ true → w.is_set ≡ true

  abbrev after : List TimeJump → Waking → Waking
  after jumps w = record {
    time_source_changed =
        w.time_source_changed || any (λ (j : TimeJump). is_switch j.clock_change) jumps;
    is_set = w.is_set || any (wakes until) jumps;
  }

  on_time_jump-exact :
      (j : TimeJump) (w : Waking) → Awake w → on_time_jump c until j w ≡ ok (after (j ∷ []) w)
  unfolding on_time_jump
  on_time_jump-exact j w a = ground (arith, reached-ok c j.now until h)

  after-cons :
      (j : TimeJump) (jumps : List TimeJump) (w : Waking)
      → after jumps (after (j ∷ []) w) ≡ after (j ∷ jumps) w
  after-cons j jumps w = ground arith

  after-Awake : (j : TimeJump) (w : Waking) → Awake w → Awake (after (j ∷ []) w)
  after-Awake j w a e = ground arith

  on_time_jumps-exact :
      (jumps : List TimeJump) (w : Waking)
      → Awake w
      → on_time_jumps c until jumps w ≡ ok (after jumps w)
  unfolding on_time_jumps
  on_time_jumps-exact [] w a = ground arith
  on_time_jumps-exact (j ∷ jumps) w a = rw (on_time_jump-exact j w a) (
      on_time_jumps-exact jumps (after (j ∷ []) w) (after-Awake j w a)
      ∙ ap (λ (w' : Waking). ok w') (after-cons j jumps w))

result-and :
    (valid switched late : Bool)
    → if◌then◌else◌ {A = Result SleepError Bool} (not valid || switched) (ok false) (ok late)
      ≡ ok (valid && not switched && late)
result-and true true late = refl
result-and true false late = refl
result-and false switched late = refl

-- A jump that does not switch ROS time on or off, and one that also ends before the time.
abbrev pub quiet : ClockChange → Bool
quiet no_switch = true
quiet _ = false

abbrev pub sleeps_on : Time → TimeJump → Bool
sleeps_on until jump = quiet jump.clock_change && ltb_ℤ jump.now until.nanoseconds

quiet-not : (change : ClockChange) → is_switch change ≡ not (quiet change)
quiet-not no_switch = refl
quiet-not ros_time_activated = refl
quiet-not ros_time_deactivated = refl

switches-all :
    (jumps : List TimeJump)
    → any (λ (j : TimeJump). is_switch j.clock_change) jumps
      ≡ not (all (λ (j : TimeJump). quiet j.clock_change) jumps)
switches-all [] = refl
switches-all (j ∷ jumps) = ground (arith, quiet-not j.clock_change, switches-all jumps)

wakes-all :
    (until : Time) (jumps : List TimeJump)
    → any (wakes until) jumps ≡ not (all (sleeps_on until) jumps)
wakes-all until [] = refl
wakes-all until (j ∷ jumps) = ground (arith, quiet-not j.clock_change, wakes-all until jumps)

double_not : (b : Bool) → not (not b) ≡ b
double_not true = refl
double_not false = refl

sleep_result :
    (c : ClockType) (until : Time) (ok_before : Bool) (jumps : List TimeJump) (ok_after : Bool)
    (now : ℤ)
    → sleep_until c until ok_before jumps ok_after now ≡ (
        if not ok_before
        then err not_initialized
        else if not (clock_eq until.clock_type c)
        then err clock_mismatch
        else ok (
            ok_after
            && not (any (λ (j : TimeJump). is_switch j.clock_change) jumps)
            && leb_ℤ until.nanoseconds now))
unfolding sleep_until
sleep_result c until false jumps ok_after now = refl
sleep_result c until true jumps ok_after now = elim (Bool-cases (clock_eq until.clock_type c)) [
  | inr e ↦ ground arith
  | inl e ↦ rw e (
      rw
        (
          on_time_jumps-exact c until e jumps
              (record { time_source_changed = false; is_set = false }) (λ k. k),
          reached-ok c now until e,
        )
        (result-and ok_after (any (λ (j : TimeJump). is_switch j.clock_change) jumps)
          (leb_ℤ until.nanoseconds now)))
]

-- How a sleep ends, and what ends the wait early. It raises if the context is not valid, and else if the
-- time is of another clock. Else it returns, and never raises by comparing times: true exactly if at its
-- end the context is still valid, no jump during the sleep switched ROS time on or off, and the clock has
-- reached the time. While it waits for a time of its own clock, the jumps leave the event unset exactly if
-- each of them switches nothing and ends before the time.
pub sleep_until-exact :
    (c : ClockType) (until : Time) (ok_before : Bool) (jumps : List TimeJump) (ok_after : Bool)
    (now : ℤ)
    → (sleep_until c until ok_before jumps ok_after now ≡ (
        if not ok_before
        then err not_initialized
        else if not (clock_eq until.clock_type c)
        then err clock_mismatch
        else ok (
            ok_after
            && all (λ (j : TimeJump). quiet j.clock_change) jumps
            && leb_ℤ until.nanoseconds now)))
      × (on_time_jumps c
            (record until { clock_type = c })
            jumps
            (record { time_source_changed = false; is_set = false })
          ≡ ok (record {
            time_source_changed = not (all (λ (j : TimeJump). quiet j.clock_change) jumps);
            is_set = not (all (sleeps_on until) jumps);
          }))
sleep_until-exact c until ok_before jumps ok_after now =
    let own : Time = record until { clock_type = c } in
    (
      sleep_result c until ok_before jumps ok_after now ∙ rw (switches-all jumps, double_not) refl,
      on_time_jumps-exact c own (clock_eq_refl c) jumps
            (record { time_source_changed = false; is_set = false }) (λ k. k)
          ∙ rw (switches-all jumps, wakes-all own jumps) refl,
    )
