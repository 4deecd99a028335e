-- ===== src/Heartbeat/Backoff.antt =====
-- The backoff interval: the loop computes the capped exponential, and the result stays in range
-- whatever the jitter.
use native.Mathlib.Nat.{pow-suc}
use mathlib.Core.Path.{ap₂}
use cloudbridge_client.Prelude.{
  ap, leb, if◌then◌else◌, ℕ, zero, suc, ◌*◌, ◌^◌, ◌-◌, ◌≤◌, ◌<◌, min, ◌≡◌, arith,
}
use cloudbridge_client.Prelude.Int.{pos, ◌≤ℤ◌, mul64_small}
use cloudbridge_client.Prelude.Time.{Duration, seconds}
use cloudbridge_client.Heartbeat.{Manager, doublings, clamp, backoff_interval}

pow_ge_one : (n : ℕ) → 1 ≤ 2 ^ n
pow_ge_one zero = omega arith
pow_ge_one (suc n) = rw pow-suc (omega (arith, pow_ge_one n))

le-mul_of_pos : (a p : ℕ) → 1 ≤ p → a ≤ a * p
le-mul_of_pos a p h = grind arith

shift_double : (b n : ℕ) → b * 2 ^ suc n ≡ b * 2 * 2 ^ n
shift_double b n = rw pow-suc (omega arith)

-- One round of the loop, at a value whose double fits an int64.
doublings_step :
    (n b limit : ℕ)
    → b < 2 ^ 62
    → doublings (suc n) (pos b) (pos limit)
      ≡ (if leb limit (b * 2) then pos limit else doublings n (pos (b * 2)) (pos limit))
unfolding doublings
doublings_step n b limit h = ground (arith, mul64_small b 2 h (omega arith))

doublings_below :
    (n b limit : ℕ)
    → b < limit
    → limit ≤ 2 ^ 62
    → doublings n (pos b) (pos limit) ≡ pos (min (b * 2 ^ n) limit)
unfolding doublings
doublings_below zero b limit h k = ap pos (omega arith)
doublings_below (suc n) b limit h k = ground (
  arith,
  doublings_step n b limit (omega arith),
  doublings_below n (b * 2) limit,
  shift_double b n,
  le-mul_of_pos (b * 2) (2 ^ n) (pow_ge_one n),
)

-- As long as base and maximum are at most 2^62, `n + 1` rounds of the loop compute the base times
-- 2^(n + 1), capped at the maximum.
doublings-eq-min :
    (n b limit : ℕ)
    → b < 2 ^ 62
    → limit ≤ 2 ^ 62
    → doublings (suc n) (pos b) (pos limit) ≡ pos (min (b * 2 ^ suc n) limit)
doublings-eq-min n b limit h k = ground (
  arith,
  doublings_step n b limit h,
  doublings_below n (b * 2) limit,
  shift_double b n,
  le-mul_of_pos (b * 2) (2 ^ n) (pow_ge_one n),
)

clamp_bounds :
    (limit next : Duration)
    → seconds 1 ≤ℤ limit
    → (seconds 1 ≤ℤ clamp limit next) × (clamp limit next ≤ℤ limit)
clamp_bounds limit next h = ground arith

-- The interval after any number of failures lies between a second and the maximum, whatever the
-- jitter made of it and whatever the base was.
pub backoff_interval_bounds :
    (jitter : Duration → Duration) (m : Manager)
    → seconds 1 ≤ℤ m.max_backoff
    → (seconds 1 ≤ℤ backoff_interval jitter m) × (backoff_interval jitter m ≤ℤ m.max_backoff)
unfolding backoff_interval
backoff_interval_bounds jitter m h =
    clamp_bounds m.max_backoff (jitter (doublings (m.fail_count - 1) m.base_interval m.max_backoff))
      h

-- After `n + 2` failures in a row the interval is the jittered exponential, base times 2^(n + 1)
-- capped at the maximum, brought into range: for a base and a maximum up to 2^62 ns no doubling
-- overflows.
pub backoff_interval-eq-min :
    (jitter : Duration → Duration) (m : Manager) (n b limit : ℕ)
    → m.fail_count ≡ suc (suc n)
    → m.base_interval ≡ pos b
    → m.max_backoff ≡ pos limit
    → b < 2 ^ 62
    → limit ≤ 2 ^ 62
    → backoff_interval jitter m ≡ clamp (pos limit) (jitter (pos (min (b * 2 ^ suc n) limit)))
unfolding backoff_interval
backoff_interval-eq-min jitter m n b limit f e l h k =
    let rounds : m.fail_count - 1 ≡ suc n = omega arith in
    ap₂ clamp l (ap jitter (rw (rounds, e, l) (doublings-eq-min n b limit h k)))
