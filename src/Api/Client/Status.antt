-- ===== src/Api/Client/Status.antt =====
-- pkg/api/client.go: the texts of HTTP errors, which decide over a retry.

use cloudbridge_client.Prelude.{
  ℕ, zero, suc, ◌+◌, ◌/◌, ◌%◌, ◌≤◌, ◌<◌, ◌≡◌, refl, arith, true, [], ◌∷◌,
}
use cloudbridge_client.RelayErrors.Contains.{Bytes, same}
use cloudbridge_client.RelayErrors.Codes.{bytes}
use cloudbridge_client.Api.Client.{digits, decimal, begins, holds, Decoder, http_error}

-- The digits of a number from 400 to 499 begin with a 4.
decimal_of_400 : (n : ℕ) → 400 ≤ n → n < 500 → (rest : Bytes) × (decimal n ≡ 52 ∷ rest)
unfolding decimal digits
decimal_of_400 zero l u = absurd (omega arith)
decimal_of_400 (suc zero) l u = absurd (omega arith)
decimal_of_400 (suc (suc zero)) l u = absurd (omega arith)
decimal_of_400 (suc (suc (suc m))) l u =
    ((48 + (suc (suc (suc m)) / 10) % 10) ∷ (48 + suc (suc (suc m)) % 10) ∷ [], ground arith)

-- A client error's text holds the mark that stops the retries.
pub client_error_marked :
    {A : Type 0} (dec : Decoder A) (status : ℕ) (body : Bytes)
    → 400 ≤ status
    → status < 500
    → holds (http_error dec status body) (bytes "HTTP 4") ≡ true
unfolding http_error holds begins same
client_error_marked dec status body l u = let (rest, e) = decimal_of_400 status l u in rw e refl
