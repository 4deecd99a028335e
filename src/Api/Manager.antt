-- ===== src/Api/Manager.antt =====
-- pkg/api/manager.go: the state of the API manager and the registration of the peer. The relay's
-- answers are a parameter; every call that leaves the manager is kept in a log.
use Prim.Native.String.{String}
use text.Mathlib.Text.{◌==◌ as str_eq}
use cloudbridge_client.Prelude.{
  ℕ, ◌+◌, Bool, true, false, ◌||◌, Option, none, some, List, [], ◌∷◌, Result, ok, err, length,
  if◌then◌else◌,
}
use cloudbridge_client.Prelude.Int.{ℤ, pos, ltb_ℤ, leb_ℤ}
use cloudbridge_client.Prelude.Time.{Time, Duration}
use cloudbridge_client.Auth.{JwtLib, AuthManager, Error, Token}
use cloudbridge_client.Auth.Keys.{Outside}
use cloudbridge_client.Auth.Validate.{validate_token}
use cloudbridge_client.Auth.Extract.{extract_quic_config, QuicConfig}
use cloudbridge_client.Api.Client.{Decoder, Tries, Failure, Outcome, do_request_with_retry}
pub mod Config
pub mod Register
pub mod Beats
pub mod Lifecycle
pub mod Channels

-- `PeerRegistrationRequest`, `PeerRegistrationResponse` and `PeerStatusResponse`, the fields that are
-- read.
pub record Registration : Type 0 where
  pub public_key : String
  pub allowed_ips : List String

pub record Registered : Type 0 where
  pub success : Bool
  pub peer_id : String
  pub relay_session_id : String
  pub error : String

pub record Status : Type 0 where
  pub success : Bool
  pub error : String

-- A call that leaves the manager: `register` and `status` are calls of the API client, of up to three HTTP
-- requests each. A session is named by the time it was made at.
pub data Call : Type 0 where
  check_token : Call
  register : Registration → Call
  status : String → String → Call
  open_route close_route : Option Time → Call

-- The relay: how its bodies decode, and what meets the n-th call, where the Boolean says whether the
-- manager's context is done; the text of a generated key; and the TrimSpace test for an empty key.
pub record Relay : Type 0 where
  pub registered : Decoder Registered
  pub reported : Decoder Status
  pub on_register : Bool → ℕ → Registration → Tries registered
  pub on_status : Bool → ℕ → String → String → Tries reported
  pub generated_key : Time → String
  pub is_blank : String → Bool

pub data RegisterError (r : Relay) : Type 0 where
  token_refused : Error → RegisterError r
  config_refused : Error → RegisterError r
  key_missing : RegisterError r
  not_reached : Failure r.registered → RegisterError r
  rejected : String → RegisterError r

-- `Manager`. A stop channel is a number; `closed` lists the channels that were closed, the last first,
-- and `channels` counts those that were made. `loops` counts the heartbeat goroutines started.
pub record Manager (Pub : Type 0) : Type 0 where
  pub auth : AuthManager Pub
  pub token : String
  pub tenant_id : String
  pub peer_id : String
  pub relay_session_id : String
  pub session_id : Option Time
  pub running : Bool
  pub cancelled : Bool
  pub hb_stop : Option ℕ
  pub closed : List ℕ
  pub channels : ℕ
  pub loops : ℕ
  pub route_monitoring : Bool
  pub log : List Call

-- `NewManager`.
abbrev pub new_manager : {Pub : Type 0} → AuthManager Pub → String → String → Bool → Manager Pub
new_manager am token tenant routes = record {
  auth = am;
  token = token;
  tenant_id = tenant;
  peer_id = "";
  relay_session_id = "";
  session_id = none;
  running = false;
  cancelled = false;
  hb_stop = some 0;
  closed = [];
  channels = 1;
  loops = 0;
  route_monitoring = routes;
  log = [];
}

-- A call is made and logged.
abbrev pub called : {Pub : Type 0} → Call → Manager Pub → Manager Pub
called c m = record m { log = c ∷ m.log }

module _ (jwt : JwtLib) (out : Outside jwt.Pub) (r : Relay) where
  abbrev pub Step : Type 0
  Step = Result (RegisterError r) (Unit {0}) × Manager jwt.Pub

  -- What the answer to a registration does: the ids are stored.
  unfoldable pub store_registration : Outcome r.registered → Manager jwt.Pub → Step
  store_registration o m = elim o.result [
    | err e ↦ (err (not_reached e), m)
    | ok a ↦
        if a.success
        then (ok tt, record m { peer_id = a.peer_id; relay_session_id = a.relay_session_id })
        else (err (rejected a.error), m)
  ]

  -- `client.RegisterPeer` and what follows it.
  unfoldable pub send_registration : Registration → Manager jwt.Pub → Step
  send_registration req m =
      store_registration
        (do_request_with_retry r.registered (r.on_register m.cancelled (length m.log) req))
        (called (register req) m)

  -- `if len(allowedIPs) == 0`
  abbrev pub or_ips : String → List String → List String
  or_ips d [] = d ∷ []
  or_ips d (ip ∷ ips) = ip ∷ ips

  unfoldable pub registration_of : Time → QuicConfig → Registration
  registration_of now q = record {
    public_key = if str_eq q.public_key "" then r.generated_key now else q.public_key;
    allowed_ips = or_ips "10.200.0.0/24" q.allowed_ips;
  }

  -- `registerPeer`.
  unfoldable pub register_peer : Time → Manager jwt.Pub → Step
  register_peer now m =
      let (checked, am) = validate_token jwt out m.token m.auth in
      let m' = called check_token (record m { auth = am }) in
      elim checked [
        | err e ↦ (err (token_refused e), m')
        | ok t ↦ elim (extract_quic_config (r.generated_key now) t) [
          | err e ↦ (err (config_refused e), m')
          | ok q ↦ send_registration (registration_of now q) m'
        ]
      ]

  -- `RegisterPeerWith`.
  unfoldable pub register_peer_with : String → List String → Manager jwt.Pub → Step
  register_peer_with key ips m =
      if r.is_blank key
      then (err key_missing, m)
      else send_registration (record { public_key = key; allowed_ips = or_ips "10.100.0.0/16" ips })
          m
