-- ===== src/RelayErrors/Retry.antt =====
-- pkg/errors/errors.go: `RetryStrategy`; cmd/cloudbridge-client/main.go: the loops that retry with it.
-- Floating point is a parameter: the type and the operations that the delay uses.
use mathlib.Core.Path.{subst}
use cloudbridge_client.Prelude.{
  List, [], ◌∷◌, All, ℕ, zero, suc, ◌+◌, ◌-◌, ◌≤◌, ◌<◌, ◌≡◌, refl, ◌∙◌, arith, Bool, true, false,
  Option, none, some, if◌then◌else◌, Bool-cases, inl, inr, Option-cases,
}
use cloudbridge_client.Prelude.Int.{ℤ, pos, pos_part, leb_ℤ, ltb_ℤ, ◌≤ℤ◌}
use cloudbridge_client.Prelude.Time.{Duration}
use cloudbridge_client.RelayErrors.Codes.{GoError, handle_error}

-- Go's float64, as far as `GetNextDelay` uses it.
pub record Float64 : Type 1 where
  pub F : Type 0
  pub of_int : ℤ → F
  pub mul : F → F → F
  pub to_int : F → ℤ

add_sub_one : (n : ℕ) → n + 1 - 1 ≡ n
add_sub_one n = omega arith

module _ (fl : Float64) where
  open fl use {F, of_int, mul, to_int}

  -- `RetryStrategy`. `CurrentRetry` is a Go int that stays far from its bound.
  pub record RetryStrategy : Type 0 where
    pub max_retries : ℤ
    pub backoff_multiplier : F
    pub max_backoff : Duration
    pub current_retry : ℕ

  -- `NewRetryStrategy`.
  unfoldable pub new_retry_strategy : ℤ → F → Duration → RetryStrategy
  new_retry_strategy max_retries multiplier max_backoff = record {
    max_retries = max_retries;
    backoff_multiplier = multiplier;
    max_backoff = max_backoff;
    current_retry = 0;
  }

  -- `ShouldRetry`.
  unfoldable pub should_retry : RetryStrategy → GoError → Bool
  should_retry rs e =
      if leb_ℤ rs.max_retries (pos rs.current_retry) then false else (handle_error e).retry

  -- `GetNextDelay`: the delay, and the strategy with the retry counted.
  unfoldable pub get_next_delay : RetryStrategy → GoError → Duration × RetryStrategy
  get_next_delay rs e =
      let base = (handle_error e).delay in
      let delay =
        to_int
          (mul (mul (of_int base) rs.backoff_multiplier) (of_int (pos (rs.current_retry + 1)))) in
      (
        if ltb_ℤ rs.max_backoff delay then rs.max_backoff else delay,
        record rs { current_retry = rs.current_retry + 1 },
      )

  -- `Reset`.
  unfoldable pub reset : RetryStrategy → RetryStrategy
  reset rs = record rs { current_retry = 0 }

  -- How a retrying loop ends: with the last error (none on success) after some calls, each but the
  -- last followed by a sleep; or the fuel is used up.
  pub record Ended : Type 0 where
    pub result : Option GoError
    pub calls : ℕ
    pub slept : List Duration
    pub strategy : RetryStrategy

  -- `connectWithRetry`, `authenticateWithRetry` and `createTunnelWithRetry`: call, and on an error
  -- that may be retried sleep and call again. `call n` is what the call number `n` answers.
  unfoldable pub with_retry :
      ℕ → (ℕ → Option GoError) → ℕ → List Duration → RetryStrategy → Option Ended
  with_retry zero call n slept rs = none
  with_retry (suc fuel) call n slept rs = elim (call n) [
    | none ↦ some (record { result = none; calls = n + 1; slept = slept; strategy = rs })
    | some e ↦ elim (should_retry rs e) [
      | false ↦ some (record { result = some e; calls = n + 1; slept = slept; strategy = rs })
      | true ↦
          let (delay, rs') = get_next_delay rs e in with_retry fuel call (n + 1) (delay ∷ slept) rs'
    ]
  ]

  should_retry-lt :
      (rs : RetryStrategy) (e : GoError)
      → should_retry rs e ≡ true
      → rs.current_retry < pos_part rs.max_retries
  unfolding should_retry
  should_retry-lt rs e h = ground arith

  -- No delay is over the maximum, and each counts as one retry.
  get_next_delay_bounds :
      (rs : RetryStrategy) (e : GoError)
      → ((get_next_delay rs e).0 ≤ℤ rs.max_backoff)
        × ((get_next_delay rs e).1.current_retry ≡ rs.current_retry + 1)
        × ((get_next_delay rs e).1.max_retries ≡ rs.max_retries)
        × ((get_next_delay rs e).1.max_backoff ≡ rs.max_backoff)
  unfolding get_next_delay
  get_next_delay_bounds rs e = ground arith

  -- The retries left.
  abbrev pub left : RetryStrategy → ℕ
  left rs = pos_part rs.max_retries - rs.current_retry

  -- The loop ended after some calls: with what the last of them answered, within the retries left,
  -- and without a sleep over the limit.
  pub record EndsWell (call : ℕ → Option GoError) (most : ℕ) (limit : Duration) (end : Ended)
      : Type 0 where
    pub last : call (end.calls - 1) ≡ end.result
    pub few : end.calls ≤ most
    pub capped : All (λ d. d ≤ℤ limit) end.slept

  retry_from :
      (fuel : ℕ) (call : ℕ → Option GoError) (n : ℕ) (slept : List Duration) (rs : RetryStrategy)
      (limit : Duration) (most : ℕ)
      → left rs < fuel
      → n + 1 + left rs ≤ most
      → rs.max_backoff ≡ limit
      → All (λ d. d ≤ℤ limit) slept
      → (end : Ended) × (with_retry fuel call n slept rs ≡ some end) × EndsWell call most limit end
  unfolding with_retry
  retry_from zero call n slept rs limit most h m l a = absurd (omega arith)
  retry_from (suc fuel) call n slept rs limit most h m l a = elim (Option-cases (call n)) [
    | inl good ↦ (
      record { result = none; calls = n + 1; slept = slept; strategy = rs },
      rw (good, with_retry),
      record { last = rw (add_sub_one n) good; few = omega arith; capped = a },
    )
    | inr (e, bad) ↦ elim (Bool-cases (should_retry rs e)) [
      | inr stop ↦ (
        record { result = some e; calls = n + 1; slept = slept; strategy = rs },
        rw (bad, with_retry) (rw (stop, with_retry)),
        record { last = rw (add_sub_one n) bad; few = omega arith; capped = a },
      )
      | inl again ↦
          let lt = should_retry-lt rs e again in
          let (capped, count, same, limit_same) = get_next_delay_bounds rs e in
          let rs' : RetryStrategy = (get_next_delay rs e).1 in
          let fewer : left rs' + 1 ≡ left rs = rw (count, same) (omega arith) in
          let (end, eq, well) =
            retry_from fuel call (n + 1) ((get_next_delay rs e).0 ∷ slept) rs' limit most
              (omega arith) (omega arith) (limit_same ∙ l)
              (subst (λ (d : Duration). (get_next_delay rs e).0 ≤ℤ d) l capped, a) in
          (end, rw (bad, with_retry) (rw (again, with_retry) eq), well)
    ]
  ]

  -- Started with a strategy that has `left` retries left, the loop ends, with fuel `left + 1`, after
  -- at most `left + 1` calls, with what the last of them answered, and no sleep exceeds the maximum.
  pub with_retry_ends :
      (call : ℕ → Option GoError) (rs : RetryStrategy)
      → (end : Ended) × (with_retry (left rs + 1) call 0 [] rs ≡ some end)
        × EndsWell call (left rs + 1) rs.max_backoff end
  with_retry_ends call rs =
      retry_from (left rs + 1) call 0 [] rs rs.max_backoff (left rs + 1) (omega arith) (omega arith)
        refl tt
