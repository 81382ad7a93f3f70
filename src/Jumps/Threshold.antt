-- ===== src/Jumps/Threshold.antt =====
-- What a jump callback is registered with says which threshold it was (rclpy/rclpy/clock.py).
use rclpy.Prelude.{◌≡◌, refl, sym, Bool, false, ◌&&◌, Option, none, some, ok, if◌then◌else◌, arith}
use rclpy.Prelude.Int.{ℤ, pos, eqb_ℤ}
use rclpy.Duration.{Duration}
use rclpy.Jumps.{
  CallbackArgument, is_absent, is_not_callable, JumpThreshold, not_positive, not_negative,
  make_threshold, nanoseconds_or_zero, register,
}

-- The bound that a number stands for, where zero stands for none.
abbrev pub bound_of : ℤ → Option Duration
bound_of n = if eqb_ℤ n (pos 0) then none else some (record { nanoseconds = n })

bound_of-forward :
    (o : Option Duration) → not_positive o ≡ false → bound_of (nanoseconds_or_zero o) ≡ o
bound_of-forward none h = ground arith
bound_of-forward (some d) h = ground arith

bound_of-backward :
    (o : Option Duration) → not_negative o ≡ false → bound_of (nanoseconds_or_zero o) ≡ o
bound_of-backward none h = ground arith
bound_of-backward (some d) h = ground arith

made :
    (forward backward : Option Duration) (on_change : Bool) (t : JumpThreshold)
    → make_threshold forward backward on_change ≡ ok t
    → (not_positive t.min_forward ≡ false) × (not_negative t.min_backward ≡ false)
unfolding make_threshold
made forward backward on_change t h = ground arith

-- A threshold that the constructor lets through is registered, with at least one callback and none that is not
-- callable, with three values from which it can be read back: zero stands for a bound that is not there, and for no other.
pub register-read :
    (forward backward : Option Duration) (on_change : Bool) (pre post : CallbackArgument)
    (t : JumpThreshold)
    → make_threshold forward backward on_change ≡ ok t
    → (is_absent pre && is_absent post) ≡ false
    → is_not_callable pre ≡ false
    → is_not_callable post ≡ false
    → (args : Bool × ℤ × ℤ) × (register pre post t ≡ ok args)
      × (t.on_clock_change ≡ args.0)
      × (t.min_forward ≡ bound_of args.1)
      × (t.min_backward ≡ bound_of args.2)
unfolding register
register-read forward backward on_change pre post t h k l m =
    let bounds = made forward backward on_change t h in
    (
      (t.on_clock_change, nanoseconds_or_zero t.min_forward, nanoseconds_or_zero t.min_backward),
      rw (k, l, m) refl,
      refl,
      sym (bound_of-forward t.min_forward bounds.0),
      sym (bound_of-backward t.min_backward bounds.1),
    )
