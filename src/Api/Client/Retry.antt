-- ===== src/Api/Client/Retry.antt =====
-- pkg/api/client.go: doRequestWithRetry over the answers of the relay. An answer is final when it is a
-- success or its error holds the mark of a client error.
use cloudbridge_client.Prelude.{
  ℕ, zero, suc, ◌+◌, ◌≤◌, ◌<◌, ◌≡◌, refl, sym, ◌∙◌, arith, true, false, Option, none, some, List,
  [], ◌∷◌, Result, ok, err,
}
use cloudbridge_client.Prelude.Time.{Duration, seconds}
use cloudbridge_client.RelayErrors.Contains.{Bytes}
use cloudbridge_client.RelayErrors.Codes.{bytes}
use cloudbridge_client.Api.Client.{
  answered, holds, Decoder, http_error, attempt, do_request, Tries, Failure, refused, exhausted,
  attempts, capped, do_request_with_retry,
}
use cloudbridge_client.Api.Client.Status.{client_error_marked}

module _ {A : Type 0} (dec : Decoder A) where
  -- What a request's result decides over the whole call, where it does.
  abbrev pub verdict : Result Bytes A → Option (Result (Failure dec) A)
  verdict (ok a) = some (ok a)
  verdict (err e) = elim (holds e (bytes "HTTP 4")) [ true ↦ some (err (refused e)) | false ↦ none ]

  -- A final answer ends the call, after this request.
  attempts_final :
      (w : Tries dec) (left n : ℕ) (backoff : Duration) (last : Bytes) (slept : List Duration)
      (r : Result (Failure dec) A)
      → w.cancelled n ≡ false
      → verdict (attempt dec w n) ≡ some r
      → (((attempts dec w (suc left) n backoff last slept).result ≡ r)
          × ((attempts dec w (suc left) n backoff last slept).requests ≡ n + 1))
  unfolding attempts
  attempts_final w left zero backoff last slept r live d = ground arith
  attempts_final w left (suc n) backoff last slept r live d = ground arith

  error_of : Result Bytes A → Bytes
  error_of (ok a) = []
  error_of (err e) = e

  -- Another answer is followed by the attempts that are left.
  attempts_undecided :
      (w : Tries dec) (left n : ℕ) (backoff : Duration) (last : Bytes) (slept : List Duration)
      → w.cancelled n ≡ false
      → verdict (attempt dec w n) ≡ none
      → (next : Duration) × (e : Bytes) × (wait : List Duration) × (attempts dec w
            (suc left)
            n
            backoff
            last
            slept
          ≡ attempts dec w left (n + 1) next e wait)
  unfolding attempts error_of
  attempts_undecided w left zero backoff last slept live d =
      (backoff, error_of (attempt dec w 0), slept, ground arith)
  attempts_undecided w left (suc n) backoff last slept live d = (
    capped dec (w.grow backoff),
    error_of (attempt dec w (suc n)),
    w.jitter (suc n) backoff ∷ slept,
    ground arith,
  )

  -- The attempts from one on, when the first final answer, the m-th, comes within those left.
  attempts_decided :
      (w : Tries dec) (left k n m : ℕ) (backoff : Duration) (last : Bytes) (slept : List Duration)
      (r : Result (Failure dec) A)
      → k < left
      → m ≡ n + k
      → ((i : ℕ) → w.cancelled i ≡ false)
      → ((i : ℕ) → n ≤ i → i < m → verdict (attempt dec w i) ≡ none)
      → verdict (attempt dec w m) ≡ some r
      → (((attempts dec w left n backoff last slept).result ≡ r)
          × ((attempts dec w left n backoff last slept).requests ≡ m + 1))
  attempts_decided w zero k n m backoff last slept r lt at live before d = absurd (omega arith)
  attempts_decided w (suc left) zero n m backoff last slept r lt at live before d =
      let same : m ≡ n = omega arith in
      let (res, req) = attempts_final w left m backoff last slept r (live m) d in
      rw (sym same) (res, req)
  attempts_decided w (suc left) (suc k) n m backoff last slept r lt at live before d =
      let (next, e, wait, step) =
        attempts_undecided w left n backoff last slept (live n)
          (before n (omega arith) (omega arith)) in
      let (res, req) =
        attempts_decided w left k (n + 1) m next e wait r (omega arith) (omega arith) live
          (λ i ge lt'. before i (omega arith) lt') d in
      rw step (res, req)

  -- Where no answer is final, every attempt left is made.
  attempts_exhausted :
      (w : Tries dec) (left n : ℕ) (backoff : Duration) (last : Bytes) (slept : List Duration)
      → ((i : ℕ) → w.cancelled i ≡ false)
      → ((i : ℕ) → n ≤ i → i < n + left → verdict (attempt dec w i) ≡ none)
      → (((attempts dec w left n backoff last slept).requests ≡ n + left)
          × ((e : Bytes) × ((attempts dec w left n backoff last slept).result ≡ err (exhausted e))))
  unfolding attempts
  attempts_exhausted w zero n backoff last slept live all = (omega arith, (last, refl))
  attempts_exhausted w (suc left) n backoff last slept live all =
      let (next, e, wait, step) =
        attempts_undecided w left n backoff last slept (live n)
          (all n (omega arith) (omega arith)) in
      let (req, more) =
        attempts_exhausted w left (n + 1) next e wait live
          (λ i ge lt. all i (omega arith) (omega arith)) in
      rw step (req ∙ omega arith, more)

  -- No more requests are made than attempts are left.
  attempts_bounded :
      (w : Tries dec) (left n : ℕ) (backoff : Duration) (last : Bytes) (slept : List Duration)
      → (attempts dec w left n backoff last slept).requests ≤ n + left
  unfolding attempts error_of
  attempts_bounded w zero n backoff last slept = omega arith
  attempts_bounded w (suc left) zero backoff last slept =
      let rest = attempts_bounded w left 1 backoff (error_of (attempt dec w 0)) slept in
      ground arith
  attempts_bounded w (suc left) (suc n) backoff last slept =
      let rest =
        attempts_bounded w left (suc n + 1) (capped dec (w.grow backoff))
          (error_of (attempt dec w (suc n))) (w.jitter (suc n) backoff ∷ slept) in
      ground arith

  pub first_final_answer :
      (w : Tries dec) (k : ℕ) (r : Result (Failure dec) A)
      → k < 3
      → ((i : ℕ) → w.cancelled i ≡ false)
      → ((i : ℕ) → i < k → verdict (attempt dec w i) ≡ none)
      → verdict (attempt dec w k) ≡ some r
      → (((do_request_with_retry dec w).result ≡ r)
          × ((do_request_with_retry dec w).requests ≡ k + 1))
  unfolding do_request_with_retry
  first_final_answer w k r lt live before d =
      attempts_decided w 3 k 0 k (seconds 1) [] [] r lt (omega arith) live
        (λ i ge lt'. before i lt') d

  client_error_final :
      (w : Tries dec) (status : ℕ) (body : Bytes)
      → 400 ≤ status
      → status < 500
      → w.answer 0 ≡ answered status body
      → verdict (attempt dec w 0) ≡ some (err (refused (http_error dec status body)))
  unfolding attempt do_request
  client_error_final w status body l u at =
      let marked = client_error_marked dec status body l u in ground arith

  -- doRequestWithRetry, not cancelled, against a relay that answers each request with some status from
  -- 400 to 499: one request is made, and the call fails with the text of that answer.
  client_error_not_retried :
      (w : Tries dec) (status : ℕ) (body : Bytes)
      → 400 ≤ status
      → status < 500
      → ((i : ℕ) → w.cancelled i ≡ false)
      → w.answer 0 ≡ answered status body
      → (((do_request_with_retry dec w).result ≡ err (refused (http_error dec status body)))
          × ((do_request_with_retry dec w).requests ≡ 1))
  client_error_not_retried w status body l u live at =
      first_final_answer w 0 (err (refused (http_error dec status body))) (omega arith) live
        (λ i lt. absurd (omega arith)) (client_error_final w status body l u at)

  -- doRequestWithRetry makes at most three requests, whatever the answers are and whether or not it is
  -- cancelled.
  pub requests_bounded : (w : Tries dec) → (do_request_with_retry dec w).requests ≤ 3
  unfolding do_request_with_retry
  requests_bounded w = attempts_bounded w 3 0 (seconds 1) [] []

  -- doRequestWithRetry, not cancelled, where none of the first three answers is a success or an error
  -- with the text "HTTP 4": exactly three requests are made, and the call fails as exhausted.
  pub three_requests_exhaust :
      (w : Tries dec)
      → ((i : ℕ) → w.cancelled i ≡ false)
      → ((i : ℕ) → i < 3 → verdict (attempt dec w i) ≡ none)
      → (((do_request_with_retry dec w).requests ≡ 3)
          × ((e : Bytes) × ((do_request_with_retry dec w).result ≡ err (exhausted e))))
  unfolding do_request_with_retry
  three_requests_exhaust w live all =
      attempts_exhausted w 3 0 (seconds 1) [] [] live (λ i ge lt. all i lt)
