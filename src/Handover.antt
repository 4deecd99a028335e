-- ===== src/Handover.antt =====
-- pkg/handover/manager.go: continuation tokens, their signatures, and the decision to switch. The
-- JSON encoding, HMAC-SHA256 and floating point are parameters.
use Prim.Native.String.{String}
use cloudbridge_client.Prelude.{
  ℕ, suc, ◌+◌, ◌-◌, ◌*◌, ◌%◌, ◌^◌, ◌==◌, Bool, true, false, ◌&&◌, not, Option, none, some, List, [],
  ◌∷◌, Result, ok, err, ltb, if◌then◌else◌,
}
use cloudbridge_client.Prelude.Int.{ℤ, pos, negsuc, ltb_ℤ}
use cloudbridge_client.Prelude.Time.{Time, Duration, since, seconds}
use cloudbridge_client.RelayErrors.Contains.{Bytes, same}
pub mod Tokens
pub mod Spacing

-- `ContinuationToken`. The epoch is a uint64.
pub record Token : Type 0 where
  pub conn_id : String
  pub epoch : ℕ
  pub expires_at : Time
  pub mac : Bytes
  pub server_id : String
  pub tenant_id : String

-- `tokenPayload`, with the expiry as a time in place of its text.
pub record Payload : Type 0 where
  pub conn_id : String
  pub epoch : ℕ
  pub expires_at : Time
  pub server_id : String
  pub tenant_id : String

-- `json.Marshal` of a payload, its times in RFC 3339, and HMAC-SHA256.
pub record Crypto : Type 0 where
  pub marshal : Payload → Option Bytes
  pub hmac : Bytes → Bytes → Bytes

-- `HandoverManager`.
pub record Manager : Type 0 where
  pub token : Option Token
  pub penalty : Duration
  pub last_switch : Time
  pub secret_key : Bytes
  pub token_ttl : Duration
  pub min_interval : Duration

pub data Error : Type 0 where
  no_epoch sign_failed token_expired invalid_signature : Error

-- `NewHandoverManager` on the fields of a configuration.
unfoldable pub new_manager : Duration → Bytes → Duration → Duration → Manager
new_manager penalty secret_key token_ttl min_interval = record {
  token = none;
  penalty = penalty;
  last_switch = 0;
  secret_key = secret_key;
  token_ttl = token_ttl;
  min_interval = min_interval;
}

-- `makePayload`.
unfoldable pub make_payload : Token → Payload
make_payload t = record {
  conn_id = t.conn_id;
  epoch = t.epoch;
  expires_at = t.expires_at;
  server_id = t.server_id;
  tenant_id = t.tenant_id;
}

-- `Add` on a time, not before the zero time.
abbrev pub add_duration : Time → Duration → Time
add_duration t (pos n) = t + n
add_duration t (negsuc n) = t - suc n

module _ (cr : Crypto) where
  -- `signToken`.
  unfoldable pub sign_token : Bytes → Token → Option Token
  sign_token key t = elim (cr.marshal (make_payload t)) [
    | none ↦ none
    | some data' ↦ some (record t { mac = cr.hmac key data' })
  ]

  -- `verifyToken`; `hmac.Equal` compares bytes.
  unfoldable pub verify_token : Bytes → Token → Bool
  verify_token key t = elim (cr.marshal (make_payload t)) [
    | none ↦ false
    | some data' ↦ same t.mac (cr.hmac key data')
  ]

  -- `CreateToken`; `random` is the epoch that the random bytes make, if they can be read.
  unfoldable pub create_token :
      Option ℕ → Time → String → String → String → Manager → Manager × Result Error Token
  create_token none now conn server tenant hm = (hm, err no_epoch)
  create_token (some epoch) now conn server tenant hm =
      elim (sign_token hm.secret_key (record {
        conn_id = conn;
        epoch = epoch;
        expires_at = add_duration now hm.token_ttl;
        mac = [];
        server_id = server;
        tenant_id = tenant;
      })) [ none ↦ (hm, err sign_failed) | some t ↦ (record hm { token = some t }, ok t) ]

  -- `ValidateToken`.
  unfoldable pub validate_token : Time → Token → Manager → Option Error
  validate_token now t hm =
      if ltb t.expires_at now
      then some token_expired
      else if verify_token hm.secret_key t
      then none
      else some invalid_signature

  -- `SetToken`.
  unfoldable pub set_token : Time → Token → Manager → Manager × Option Error
  set_token now t hm = elim (validate_token now t hm) [
    | some e ↦ (hm, some e)
    | none ↦ (record hm { token = some t }, none)
  ]

  -- The second half of `RotateSecretKey`: a failed signature leaves the old MAC.
  unfoldable pub resign : Bytes → Token → Token
  resign key t =
      let t' = record t { epoch = (t.epoch + 1) % 2 ^ 64 } in
      elim (sign_token key t') [ none ↦ t' | some s ↦ s ]

  abbrev pub map_token : (Token → Token) → Option Token → Option Token
  map_token f none = none
  map_token f (some t) = some (f t)

  -- `RotateSecretKey`.
  unfoldable pub rotate_secret_key : Bytes → Bool → Manager → Manager
  rotate_secret_key key bump_epoch hm = record hm {
    secret_key = key;
    token = if bump_epoch then map_token (resign key) hm.token else hm.token;
  }

-- `SetSecretKey`.
unfoldable pub set_secret_key : Bytes → Manager → Manager
set_secret_key key hm = record hm { secret_key = key }

-- `RecordSwitch`.
unfoldable pub record_switch : Time → Manager → Manager
record_switch now hm = record hm { last_switch = now }

-- `PathSLI`, the fields that the cost uses.
pub record PathSli (F : Type 0) : Type 0 where
  pub rtt : Duration
  pub loss : F
  pub jitter : Duration

-- Go's float64 as far as the costs use it: whole milliseconds of a duration, its own number, decimal
-- literals as ratios, and the operations.
pub record Float64 : Type 1 where
  pub F : Type 0
  pub milliseconds : Duration → F
  pub of_duration : Duration → F
  pub ratio : ℕ → ℕ → F
  pub add : F → F → F
  pub sub : F → F → F
  pub mul : F → F → F
  pub div : F → F → F
  pub lt : F → F → Bool

module _ (fl : Float64) where
  -- `Cost`.
  unfoldable pub cost : fl.F → fl.F → fl.F → PathSli fl.F → fl.F
  cost alpha beta gamma ps =
      fl.add (fl.add (fl.mul alpha (fl.milliseconds ps.rtt)) (fl.mul beta ps.loss))
        (fl.mul gamma (fl.milliseconds ps.jitter))

  -- `currentPenalty`.
  unfoldable pub current_penalty : Time → Manager → fl.F
  current_penalty now hm =
      let elapsed = since now hm.last_switch in
      if ltb_ℤ elapsed hm.penalty
      then fl.mul
          (fl.sub (fl.ratio 1 1) (fl.div (fl.of_duration elapsed) (fl.of_duration hm.penalty)))
          (fl.ratio 50 1)
      else fl.ratio 0 1

  -- `ShouldSwitch`.
  unfoldable pub should_switch : Time → PathSli fl.F → PathSli fl.F → Manager → Bool
  should_switch now old new hm =
      if ltb_ℤ (pos 0) hm.min_interval && ltb_ℤ (since now hm.last_switch) hm.min_interval
      then false
      else fl.lt
          (fl.add (cost (fl.ratio 1 1) (fl.ratio 100 1) (fl.ratio 1 1) new)
            (current_penalty now hm))
          (fl.mul (cost (fl.ratio 1 1) (fl.ratio 100 1) (fl.ratio 1 1) old)
            (fl.sub (fl.ratio 1 1) (fl.ratio 1 10)))
