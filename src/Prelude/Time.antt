-- ===== src/Prelude/Time.antt =====
-- Go's clock. A `time.Time` is a count of nanoseconds since the zero time (year 1), so `IsZero`
-- is the test against 0; a `time.Duration` is an int64.
use Prim.Native.Nat.{ℕ, ◌-◌, ◌*◌, ◌^◌, ◌≤◌, min}
use mathlib.Core.Path.{◌≡◌}
use mathlib.Core.Bool.{Bool}
use native.Mathlib.Omega.{arith}
use cloudbridge_client.Prelude.Tests.{leb, ◌==◌, if◌then◌else◌}
use cloudbridge_client.Prelude.Int.{ℤ, pos, negsuc}

abbrev pub Time : Type 0
Time = ℕ

abbrev pub Duration : Type 0
Duration = ℤ

abbrev pub max_int64 : ℕ
max_int64 = 2 ^ 63 - 1

abbrev pub millisecond : ℕ
millisecond = 1000000

abbrev pub second : ℕ
second = 1000000000

abbrev pub seconds : ℕ → Duration
seconds n = pos (n * second)

abbrev pub is_zero : Time → Bool
is_zero t = t == 0

-- `now.Sub(t)`, which saturates at the ends of int64.
unfoldable pub since : Time → Time → Duration
since now t =
    if leb t now then pos (min (now - t) max_int64) else negsuc (min (t - now - 1) max_int64)

since_small : (now t : Time) → t ≤ now → now - t ≤ max_int64 → since now t ≡ pos (now - t)
unfolding since
since_small now t h k = ground arith
