-- ===== src/Tests/Errors.antt =====
-- pkg/errors: texts, their classification, and a retrying loop.

use cloudbridge_client.Prelude.{ℕ, ◌≡◌, ◌↔◌, ◌+◌, zero, suc, true, Option, none, some, []}
use cloudbridge_client.Prelude.Int.{ℤ, pos}
use cloudbridge_client.Prelude.Time.{seconds}
use cloudbridge_client.RelayErrors.Contains.{Infix, contains, contains_iff}
use cloudbridge_client.RelayErrors.Codes.{bytes, GoError, plain}
use cloudbridge_client.RelayErrors.Retry.{
  Float64, RetryStrategy, new_retry_strategy, Ended, EndsWell, left, with_retry, with_retry_ends,
}

contains_iff_example :
    (contains (bytes "read: tls: bad record") (bytes "tls") ≡ true)
    ↔ Infix (bytes "tls") (bytes "read: tls: bad record")
contains_iff_example = contains_iff (bytes "read: tls: bad record") (bytes "tls")

-- Whole numbers for floats.
abbrev whole : Float64
whole = record { F = ℤ; of_int = λ n. n; mul = λ a b. a; to_int = λ n. n }

-- Every call is refused for its rate, up to the third.
abbrev call : ℕ → Option GoError
call zero = some (plain (bytes "rate limit"))
call (suc zero) = some (plain (bytes "rate limit"))
call (suc (suc n)) = none

abbrev strategy : RetryStrategy whole
strategy = new_retry_strategy whole (pos 3) (pos 2) (seconds 30)

with_retry_ends_example :
    (end : Ended whole) × (with_retry whole (left whole strategy + 1) call 0 [] strategy ≡ some end)
    × EndsWell whole call (left whole strategy + 1) strategy.max_backoff end
with_retry_ends_example = with_retry_ends whole call strategy
