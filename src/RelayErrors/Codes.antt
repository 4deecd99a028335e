-- ===== src/RelayErrors/Codes.antt =====
-- pkg/errors/errors.go: the error codes, `RelayError`, and `HandleError`, which classifies an error by
-- the patterns in its message.
use Prim.Native.String.{String}
use Prim.Native.Char.{code}
use text.Mathlib.Text.{◌==◌ as str_eq}
use cloudbridge_client.Prelude.{
  ◌≡◌, refl, Bool, true, false, not, ◌&&◌, ◌||◌, ◌↔◌, ◌⊎◌, inl, inr, [], ◌∷◌, ◌++◌, if◌then◌else◌,
  Bool-cases,
}
use cloudbridge_client.Prelude.Time.{Duration, seconds}
use cloudbridge_client.RelayErrors.Contains.{Bytes, contains, Infix, contains_iff}

-- The bytes of an ASCII text.
abbrev pub bytes : String → Bytes
bytes String.[] = []
bytes (String.◌∷◌ c s) = code c ∷ bytes s

abbrev pub err_invalid_token : String
err_invalid_token = "invalid_token"

abbrev pub err_rate_limit_exceeded : String
err_rate_limit_exceeded = "rate_limit_exceeded"

abbrev pub err_connection_limit_reached : String
err_connection_limit_reached = "connection_limit_reached"

abbrev pub err_server_unavailable : String
err_server_unavailable = "server_unavailable"

abbrev pub err_unknown_message_type : String
err_unknown_message_type = "unknown_message_type"

abbrev pub err_tls_handshake_failed : String
err_tls_handshake_failed = "tls_handshake_failed"

abbrev pub err_heartbeat_failed : String
err_heartbeat_failed = "heartbeat_failed"

abbrev pub err_connection_timeout : String
err_connection_timeout = "connection_timeout"

abbrev pub err_data_transfer_failed : String
err_data_transfer_failed = "data_transfer_failed"

pub record RelayError : Type 0 where
  pub code : String
  pub message : Bytes
  pub retry : Bool
  pub delay : Duration

-- `isRetryable`.
unfoldable pub is_retryable_code : String → Bool
is_retryable_code c =
    str_eq c err_rate_limit_exceeded
    || (str_eq c err_server_unavailable
        || (str_eq c err_heartbeat_failed
            || (str_eq c err_connection_timeout || str_eq c err_data_transfer_failed)))

-- `getRetryDelay`.
unfoldable pub get_retry_delay : String → Duration
get_retry_delay c =
    if str_eq c err_rate_limit_exceeded
    then seconds 5
    else if str_eq c err_server_unavailable
    then seconds 10
    else if str_eq c err_heartbeat_failed
    then seconds 2
    else if str_eq c err_connection_timeout
    then seconds 3
    else if str_eq c err_data_transfer_failed
    then seconds 1
    else seconds 1

-- `NewRelayError`.
unfoldable pub new_relay_error : String → Bytes → RelayError
unfolding is_retryable_code get_retry_delay
new_relay_error c message = record {
  code = c;
  message = message;
  retry = is_retryable_code c;
  delay = get_retry_delay c;
}

-- `(*RelayError).Error`: `"%s: %s"`.
unfoldable pub error_text : RelayError → Bytes
error_text e = bytes e.code ++ (bytes ": " ++ e.message)

-- A Go error: a relay error as it is, or any other by its text.
pub data GoError : Type 0 where
  relay : RelayError → GoError
  plain : Bytes → GoError

-- The `switch` of `HandleError` on the text.
unfoldable pub classify : Bytes → RelayError
classify msg =
    if contains msg (bytes "invalid token")
    then new_relay_error err_invalid_token (bytes "Invalid or expired JWT token")
    else if contains msg (bytes "rate limit")
    then new_relay_error err_rate_limit_exceeded (bytes "Rate limit exceeded")
    else if contains msg (bytes "connection limit")
    then new_relay_error err_connection_limit_reached (bytes "Connection limit reached")
    else if contains msg (bytes "server unavailable")
    then new_relay_error err_server_unavailable (bytes "Server unavailable")
    else if contains msg (bytes "tls")
    then new_relay_error err_tls_handshake_failed (bytes "TLS handshake failed")
    else new_relay_error err_unknown_message_type (bytes "Unknown error: " ++ msg)

-- `HandleError`; its second result is nil on every branch.
unfoldable pub handle_error : GoError → RelayError
unfolding classify
handle_error (relay e) = e
handle_error (plain msg) = classify msg

-- The tests of the four patterns that decide over a retry.
retry_formula :
    (msg : Bytes)
    → (classify msg).retry ≡ (
        not (contains msg (bytes "invalid token"))
        && (contains msg (bytes "rate limit")
            || (not (contains msg (bytes "connection limit"))
                && contains msg (bytes "server unavailable"))))
unfolding classify new_relay_error
retry_formula msg = elim (Bool-cases (contains msg (bytes "invalid token"))) [
  | inl t ↦ rw (t, classify)
  | inr t ↦ elim (Bool-cases (contains msg (bytes "rate limit"))) [
    | inl r ↦ rw (t, classify) (rw (r, classify))
    | inr r ↦ elim (Bool-cases (contains msg (bytes "connection limit"))) [
      | inl c ↦ rw (t, classify) (rw (r, classify) (rw (c, classify)))
      | inr c ↦ elim (Bool-cases (contains msg (bytes "server unavailable"))) [
        | inl u ↦ rw (t, classify) (rw (r, classify) (rw (c, classify) (rw (u, classify))))
        | inr u ↦ elim (Bool-cases (contains msg (bytes "tls"))) [
          | inl l ↦
              rw (t, classify)
                (rw (r, classify) (rw (c, classify) (rw (u, classify) (rw (l, classify)))))
          | inr l ↦
              rw (t, classify)
                (rw (r, classify) (rw (c, classify) (rw (u, classify) (rw (l, classify)))))
        ]
      ]
    ]
  ]
]

formula_iff :
    (t r c u : Bool) {T R C U : Type 0}
    → ((t ≡ true) ↔ T)
    → ((r ≡ true) ↔ R)
    → ((c ≡ true) ↔ C)
    → ((u ≡ true) ↔ U)
    → ((not t && (r || (not c && u))) ≡ true) ↔ ((¬ T) × (R ⊎ ((¬ C) × U)))
formula_iff true r c u ht hr hc hu = (λ h. cc, λ p. absurd (p.0 (ht.0 refl)))
formula_iff false true c u ht hr hc hu = (λ _. (λ x. cc (ht.1 x), inl (hr.0 refl)), λ _. refl)
formula_iff false false true u ht hr hc hu =
    (λ h. cc, λ p. elim p.1 [ inl x ↦ cc (hr.1 x) | inr q ↦ absurd (q.0 (hc.0 refl)) ])
formula_iff false false false true ht hr hc hu =
    (λ _. (λ x. cc (ht.1 x), inr (λ x. cc (hc.1 x), hu.0 refl)), λ _. refl)
formula_iff false false false false ht hr hc hu =
    (λ h. cc, λ p. elim p.1 [ inl x ↦ cc (hr.1 x) | inr q ↦ cc (hu.1 q.1) ])

-- An error that is not a relay error is marked as worth a retry exactly if its text has no "invalid
-- token" and has "rate limit", or else "server unavailable" and no "connection limit".
classify-retry_iff :
    (msg : Bytes)
    → ((classify msg).retry ≡ true) ↔ (
        (¬ Infix (bytes "invalid token") msg)
        × (Infix (bytes "rate limit") msg
            ⊎ ((¬ Infix (bytes "connection limit") msg) × Infix (bytes "server unavailable") msg)))
classify-retry_iff msg = rw (retry_formula msg) (
    formula_iff (contains msg (bytes "invalid token")) (contains msg (bytes "rate limit"))
      (contains msg (bytes "connection limit")) (contains msg (bytes "server unavailable"))
      (contains_iff msg (bytes "invalid token")) (contains_iff msg (bytes "rate limit"))
      (contains_iff msg (bytes "connection limit")) (contains_iff msg (bytes "server unavailable")))
