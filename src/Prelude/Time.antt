-- ===== src/Prelude/Time.antt =====
-- Python's `datetime`: the wall clock in microseconds since 1970-01-01 00:00 of its own zone, and the
-- zone's offset in microseconds, `none` for a naive value. Zones lie east of Greenwich (UTC and KST
-- are those that the code uses), and instants after 1970.
use Prim.Native.Nat.{ℕ, ◌+◌, ◌-◌, ◌*◌, ◌/◌, ◌%◌}
use mathlib.Core.Bool.{Bool}
use mathlib.Core.Option.{Option, none, some}
use prime_jennie_runtime.Prelude.Tests.{ltb, leb}

pub record Datetime : Type 0 where
  pub wall : ℕ
  pub offset : Option ℕ

abbrev pub seconds : ℕ → ℕ
seconds n = n * 1_000_000

abbrev pub day : ℕ
day = 86_400_000_000

-- `timezone(timedelta(hours=9))`
abbrev pub kst_offset : ℕ
kst_offset = 32_400_000_000

-- The instant in UTC; a naive value is taken for UTC.
abbrev pub offset_of : Option ℕ → ℕ
offset_of none = 0
offset_of (some o) = o

abbrev pub instant : Datetime → ℕ
instant d = d.wall - offset_of d.offset

-- `d.date()` as a day number, and `d.time()` in microseconds, on the value's own wall clock.
abbrev pub date : Datetime → ℕ
date d = d.wall / day

abbrev pub time_of_day : Datetime → ℕ
time_of_day d = d.wall % day

-- `d.astimezone(KST)` for an aware value, with its wall clock only.
abbrev pub wall_in_kst : Datetime → ℕ
wall_in_kst d = instant d + kst_offset

-- `time(h, m)`
abbrev pub time : ℕ → ℕ → ℕ
time h m = seconds (h * 3600 + m * 60)

-- `a < b` and `a <= b` on aware values.
abbrev pub before : Datetime → Datetime → Bool
before a b = ltb (instant a) (instant b)

abbrev pub at_or_before : Datetime → Datetime → Bool
at_or_before a b = leb (instant a) (instant b)
