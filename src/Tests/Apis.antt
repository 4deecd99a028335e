-- ===== src/Tests/Apis.antt =====
-- pkg/api: a relay that answers after one error, and managers that register with it.

use cloudbridge_client.Prelude.{ℕ, zero, suc, ◌≤◌, ◌<◌, ◌≡◌, refl, false, none, [], ◌∷◌, ok, err}
use cloudbridge_client.RelayErrors.Contains.{Bytes, same}
use cloudbridge_client.Api.Client.{
  Answer, answered, not_answered, holds, begins, Decoder, do_request, attempt, Tries, exhausted,
  do_request_with_retry,
}
use cloudbridge_client.Api.Client.Retry.{verdict, requests_bounded, three_requests_exhaust}

abbrev decoder : Decoder Bytes
decoder = record { error_text = λ b. none; response = λ seen b. ok b }

abbrev tries : (ℕ → Answer) → Tries decoder
tries answer = record { answer = answer; cancelled = λ i. false; jitter = λ i b. b; grow = λ b. b }

-- No answer first, and then a success.
abbrev second_time : ℕ → Answer
second_time zero = not_answered []
second_time (suc n) = answered 200 (1 ∷ [])

abbrev forbidden : Tries decoder
forbidden = tries (λ i. answered 403 [])

requests_bounded_example : (do_request_with_retry decoder forbidden).requests ≤ 3
requests_bounded_example = requests_bounded decoder forbidden

abbrev unreachable : Tries decoder
unreachable = tries (λ i. not_answered [])

never_decided : (i : ℕ) → i < 3 → verdict decoder (attempt decoder unreachable i) ≡ none
unfolding attempt do_request holds begins same
never_decided i lt = refl

three_requests_exhaust_example :
    ((do_request_with_retry decoder unreachable).requests ≡ 3)
    × ((e : Bytes) × ((do_request_with_retry decoder unreachable).result ≡ err (exhausted e)))
three_requests_exhaust_example =
    three_requests_exhaust decoder unreachable (λ i. refl) never_decided
