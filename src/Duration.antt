-- ===== src/Duration.antt =====
-- rclpy/rclpy/duration.py: a span of time with its value in nanoseconds, which fits an int64_t.
-- Arguments are integers; the branches for `float` arguments are left out.
pub mod Laws
pub mod Samples
use rclpy.Prelude.{ℕ, ◌≡◌, ◌-◌, ◌^◌, Bool, ◌||◌, Result, ok, err, if◌then◌else◌, not}
use rclpy.Prelude.Int.{
  ℤ, pos, negsuc, ◌+ℤ◌, ◌-ℤ◌, ◌*ℤ◌, ltb_ℤ, leb_ℤ, eqb_ℤ, div_ℤ, mod_ℤ, ◌≤ℤ◌, ◌<ℤ◌,
}

-- The exceptions that durations and times raise.
pub data Error : Type 0 where
  value_error overflow_error type_error : Error

pub record Duration : Type 0 where
  pub nanoseconds : ℤ

abbrev pub s_to_ns : ℕ
s_to_ns = 1_000_000_000

abbrev pub int64_bound : ℕ
int64_bound = 2 ^ 63

-- What an int64_t holds.
abbrev pub IsInt64 : ℤ → Type 0
IsInt64 n = (negsuc (int64_bound - 1) ≤ℤ n) × (n <ℤ pos int64_bound)

unfoldable pub make : ℤ → ℤ → Result Error Duration
make seconds nanoseconds =
    let total = seconds *ℤ pos s_to_ns +ℤ nanoseconds in
    if leb_ℤ (pos int64_bound) total || ltb_ℤ total (negsuc (int64_bound - 1))
    then err overflow_error
    else ok (record { nanoseconds = total })

unfoldable pub add : Duration → Duration → Result Error Duration
unfolding make
add self other = make (pos 0) (other.nanoseconds +ℤ self.nanoseconds)

unfoldable pub sub : Duration → Duration → Result Error Duration
unfolding make
sub self other = make (pos 0) (self.nanoseconds -ℤ other.nanoseconds)

unfoldable pub mul : Duration → ℤ → Result Error Duration
unfolding make
mul self other = make (pos 0) (self.nanoseconds *ℤ other)

pub eq : Duration → Duration → Bool
eq self other = eqb_ℤ self.nanoseconds other.nanoseconds

pub ne : Duration → Duration → Bool
unfolding eq
ne self other = not (eq self other)

pub lt : Duration → Duration → Bool
lt self other = ltb_ℤ self.nanoseconds other.nanoseconds

pub le : Duration → Duration → Bool
le self other = leb_ℤ self.nanoseconds other.nanoseconds

pub gt : Duration → Duration → Bool
gt self other = ltb_ℤ other.nanoseconds self.nanoseconds

pub ge : Duration → Duration → Bool
ge self other = leb_ℤ other.nanoseconds self.nanoseconds

-- A generated message class with the fields `sec` and `nanosec`: its constructor refuses values
-- that the fields' types do not hold, and otherwise stores what it is given.
pub record MsgClass : Type 1 where
  pub Msg : Type 0
  pub new : ℤ → ℕ → Result Error Msg
  pub sec : Msg → ℤ
  pub nanosec : Msg → ℕ

pub record MsgLaws (c : MsgClass) : Type 0 where
  pub stored : (s : ℤ) (n : ℕ) (m : c.Msg) → c.new s n ≡ ok m → (c.sec m ≡ s) × (c.nanosec m ≡ n)

module _ (c : MsgClass) where
  open c use {Msg, new, sec, nanosec}

  pub to_msg : Duration → Result Error Msg
  to_msg self = new (div_ℤ self.nanoseconds s_to_ns) (mod_ℤ self.nanoseconds s_to_ns)

  pub from_msg : Msg → Result Error Duration
  unfolding make
  from_msg msg = make (sec msg) (pos (nanosec msg))
