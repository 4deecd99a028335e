-- ===== src/Api/Client.antt =====
-- pkg/api/client.go: one request, the retrying request, and the operations that use it. HTTP, JSON and
-- the jitter are arguments; a text is its bytes.
use Prim.Native.String.{String}
use cloudbridge_client.Prelude.{
  ℕ, zero, suc, ◌+◌, ◌/◌, ◌%◌, Bool, true, false, ◌||◌, Option, none, some, List, [], ◌∷◌, ◌++◌,
  Result, ok, err, ltb, leb, if◌then◌else◌,
}
use cloudbridge_client.Prelude.Int.{ℤ, ltb_ℤ}
use cloudbridge_client.Prelude.Time.{Duration, seconds}
use cloudbridge_client.RelayErrors.Contains.{Bytes, same, slice}
use cloudbridge_client.RelayErrors.Codes.{bytes}
use cloudbridge_client.Prelude.{length}
pub mod Status
pub mod Retry

-- What a request comes to: an error before there is an answer, with its text, or a status and a body.
pub data Answer : Type 0 where
  not_answered : Bytes → Answer
  answered : ℕ → Bytes → Answer

-- `%d` of a number that is not negative: its decimal digits; the fuel is one more than the number.
unfoldable pub digits : ℕ → ℕ → Bytes
digits zero n = []
digits (suc fuel) n =
    let rest = digits fuel (n / 10) in
    if ltb n 10 then (48 + n) ∷ [] else rest ++ (48 + n % 10) ∷ []

unfoldable pub decimal : ℕ → Bytes
decimal n = digits (n + 1) n

-- `strings.Contains`.
unfoldable pub begins : Bytes → Bytes → Bool
begins sub s = same (slice s 0 (length sub)) sub

unfoldable pub holds : Bytes → Bytes → Bool
holds [] sub = begins sub []
holds (b ∷ s) sub = begins sub (b ∷ s) || holds s sub

-- How a body decodes: as an error document with its `error` text, and as the wanted response or with
-- the decoder's error. A response is decoded into the value that the earlier bodies of the call, the latest
-- first, were decoded into, which may have left something there.
pub record Decoder (A : Type 0) : Type 0 where
  pub error_text : Bytes → Option Bytes
  pub response : List Bytes → Bytes → Result Bytes A

module _ {A : Type 0} (dec : Decoder A) where
  -- `HTTP %d: %s`
  unfoldable pub http_error : ℕ → Bytes → Bytes
  http_error status body =
      bytes "HTTP "
      ++ (decimal status ++ (bytes ": " ++ elim (dec.error_text body) [ some e ↦ e | none ↦ body ]))

  -- `doRequest`, after the bodies that were decoded before it.
  unfoldable pub do_request : List Bytes → Answer → Result Bytes A
  do_request seen (not_answered e) = err e
  do_request seen (answered status body) =
      if leb 400 status then err (http_error status body) else elim (dec.response seen body) [
        | err e ↦ err (bytes "failed to unmarshal response: " ++ e)
        | ok a ↦ ok a
      ]

  -- The world of a retrying request: the answer to each attempt, whether the context is done in the
  -- wait before it, the jitter of each wait, and the product of a backoff with 1.5.
  pub record Tries : Type 0 where
    pub answer : ℕ → Answer
    pub cancelled : ℕ → Bool
    pub jitter : ℕ → Duration → Duration
    pub grow : Duration → Duration

  -- The bodies that the attempts before one decoded: each was made, and a body with an error status is
  -- not decoded as a response.
  abbrev pub decoded : Answer → List Bytes → List Bytes
  decoded (not_answered e) seen = seen
  decoded (answered status body) seen = if leb 400 status then seen else body ∷ seen

  unfoldable pub seen_before : Tries → ℕ → List Bytes
  seen_before w zero = []
  seen_before w (suc n) = decoded (w.answer n) (seen_before w n)

  -- The n-th attempt's request.
  unfoldable pub attempt : Tries → ℕ → Result Bytes A
  attempt w n = do_request (seen_before w n) (w.answer n)

  pub data Failure : Type 0 where
    done : Failure
    refused : Bytes → Failure
    exhausted : Bytes → Failure

  pub record Outcome : Type 0 where
    pub result : Result Failure A
    pub requests : ℕ
    pub slept : List Duration

  -- `if backoff > maxBackoff { backoff = maxBackoff }`
  abbrev pub capped : Duration → Duration
  capped backoff = if ltb_ℤ (seconds 30) backoff then seconds 30 else backoff

  -- The loop of `doRequestWithRetry` from an attempt on, with the attempts left. The first attempt does
  -- not wait; `last` is the last error.
  unfoldable pub attempts : Tries → ℕ → ℕ → Duration → Bytes → List Duration → Outcome
  attempts w zero n backoff last slept = record {
    result = err (exhausted last);
    requests = n;
    slept = slept;
  }
  attempts w (suc left) n backoff last slept =
      let wait : List Duration = elim n [
        | zero ↦ slept
        | suc m ↦ w.jitter (suc m) backoff ∷ slept
      ] in
      let next : Duration = elim n [ zero ↦ backoff | suc m ↦ capped (w.grow backoff) ] in
      let stop : Bool = elim n [ zero ↦ false | suc m ↦ w.cancelled (suc m) ] in
      elim stop [
        | true ↦ record { result = err done; requests = n; slept = slept }
        | false ↦ elim (attempt w n) [
          | ok a ↦ record { result = ok a; requests = n + 1; slept = wait }
          | err e ↦ elim (holds e (bytes "HTTP 4")) [
            | true ↦ record { result = err (refused e); requests = n + 1; slept = wait }
            | false ↦ attempts w left (n + 1) next e wait
          ]
        ]
      ]

  -- `doRequestWithRetry`: three attempts.
  unfoldable pub do_request_with_retry : Tries → Outcome
  do_request_with_retry w = attempts w 3 0 (seconds 1) [] []
