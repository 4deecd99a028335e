-- ===== src/Tests/Managers.antt =====
-- pkg/api/manager.go: managers whose relay registers every peer and acknowledges no heartbeat.

use text.Mathlib.Text.{◌==◌ as str_eq}
use cloudbridge_client.Prelude.{
  ℕ, ◌+◌, ◌/◌, ◌%◌, ◌≡◌, ◌≢◌, refl, arith, ◌⊎◌, true, false, none, some, [], ◌∷◌, ok, if◌then◌else◌,
}
use cloudbridge_client.RelayErrors.Contains.{Bytes, same}
use cloudbridge_client.RelayErrors.Codes.{bytes}
use cloudbridge_client.Auth.{secret, AuthManager}
use cloudbridge_client.Auth.Validate.{
  secret_candidates, wants_fallback, candidates, try_candidates, validate_jwt_token, validate_token,
}
use cloudbridge_client.Auth.Validate.Hmac.{OneOf}
use cloudbridge_client.Auth.Extract.{extract_quic_config}
use cloudbridge_client.Auth.Claims.{get}
use cloudbridge_client.Api.Client.{
  Answer, answered, not_answered, holds, begins, Decoder, do_request, attempt, Tries,
  do_request_with_retry, attempts,
}
use cloudbridge_client.Api.Manager.{
  check_token, register, Registration, Registered, Status, Relay, Manager, new_manager,
  store_registration, send_registration, registration_of, register_peer,
}
use cloudbridge_client.Api.Manager.Register.{registered_token_signed}
use cloudbridge_client.Api.Manager.Beats.{
  NeverAcknowledges, Accepted, registers, start_heartbeat, registers_every_third,
}
use cloudbridge_client.Api.Manager.Lifecycle.{start, stop, stopped_for_good, DoneFails}
use cloudbridge_client.Api.Manager.Channels.{IsSound, started, stopped, acts, acts-IsSound}
use cloudbridge_client.Tests.Auths.{hmac_token, lib, outside, config}

abbrev pub registered_body : Registered
registered_body = record { success = true; peer_id = "p"; relay_session_id = "s"; error = "" }

abbrev pub always : {A : Type 0} (dec : Decoder A) → Answer → Tries dec
always dec a = record { answer = λ i. a; cancelled = λ i. false; jitter = λ i b. b; grow = λ b. b }

abbrev pub registered_decoder : Decoder Registered
registered_decoder = record { error_text = λ b. none; response = λ seen b. ok registered_body }

abbrev pub status_decoder : Decoder Status
status_decoder = record {
  error_text = λ b. none;
  response = λ seen b. ok (record { success = true; error = "" });
}

abbrev pub relay : Relay
relay = record {
  registered = registered_decoder;
  reported = status_decoder;
  on_register =
      λ done n q. always registered_decoder (if done then not_answered [] else answered 200 []);
  on_status = λ done n p s. always status_decoder (not_answered []);
  generated_key = λ t. "generated";
  is_blank = λ s. str_eq s "";
}

abbrev pub auth : AuthManager ℕ
auth = record { config = config; jwt_secret = []; jwks_url = ""; jwks_cache = []; fetches = 0 }

abbrev pub fresh : Manager ℕ
fresh = new_manager auth "a.b.c" "tenant" false

pub first : (register_peer lib outside relay 5 fresh).0 ≡ ok tt
unfolding register_peer registration_of send_registration store_registration validate_token
    validate_jwt_token try_candidates candidates wants_fallback secret_candidates bytes
    extract_quic_config get do_request_with_retry attempts attempt do_request
first = refl

registered_token_signed_example :
    ((k : Bytes) × lib.Signed (secret k) fresh.token
      × ((OneOf k (secret_candidates lib outside config.fallback_secret)
            × (wants_fallback lib outside config fresh.token ≡ true))
          ⊎ OneOf k (secret_candidates lib outside config.secret)))
    × ((q : Registration) × ((register_peer lib outside relay 5 fresh).1.log
          ≡ register q ∷ check_token ∷ fresh.log)
        × (str_eq q.public_key "" ≡ false)
        × (q.allowed_ips ≢ []))
registered_token_signed_example =
    registered_token_signed lib outside relay 5 fresh refl refl refl first

unanswered : NeverAcknowledges lib outside relay
unfolding do_request_with_retry attempts attempt do_request holds begins same
unanswered c n p s x h = absurd (ground arith)

fresh-Accepted : Accepted lib outside relay fresh.auth fresh.token
unfolding validate_token validate_jwt_token try_candidates candidates wants_fallback
    secret_candidates bytes extract_quic_config get
fresh-Accepted = record {
  mode = refl;
  claims = hmac_token;
  accepted = refl;
  config = λ now. (_, refl);
}

registers_every_third_example :
    ((start_heartbeat lib outside relay (5 ∷ 6 ∷ 7 ∷ []) 1 fresh).0 ≡ (1 + 3) % 3)
    × (registers lib outside relay
          (start_heartbeat lib outside relay (5 ∷ 6 ∷ 7 ∷ []) 1 fresh).1.log
        ≡ registers lib outside relay fresh.log + (1 + 3) / 3)
registers_every_third_example =
    registers_every_third lib outside relay (5 ∷ 6 ∷ 7 ∷ []) 1 fresh unanswered fresh-Accepted
      (omega arith) refl

pub no_answer_when_done : DoneFails lib outside relay
unfolding do_request_with_retry attempts attempt do_request holds begins same
no_answer_when_done n q a h = absurd (ground arith)

abbrev pub running : Manager ℕ
running = record fresh { running = true; session_id = some 5 }

stopped_for_good_example : (start lib outside relay 9 (stop lib outside relay running)).0 ≢ ok tt
stopped_for_good_example = stopped_for_good lib outside relay 9 running no_answer_when_done refl

fresh-IsSound : IsSound fresh
fresh-IsSound = record { once = tt; made = tt; current = (tt, omega arith) }

acts-IsSound_example : IsSound (acts lib outside relay (started 5 ∷ started 6 ∷ stopped ∷ []) fresh)
acts-IsSound_example =
    acts-IsSound lib outside relay (started 5 ∷ started 6 ∷ stopped ∷ []) fresh fresh-IsSound
