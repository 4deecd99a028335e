-- ===== src/GrpcControl.antt =====
-- pkg/relay/transport/grpc_client.go and grpc_transport.go: the gRPC control plane. Every call of gRPC is kept in a log, the latest first; what the network answers
-- is a function of the log.
use Prim.Native.String
use Prim.Native.String.{String}
use text.Mathlib.Text.{◌==◌ as str_eq}
use cloudbridge_client.Prelude.{
  ℕ, Bool, true, false, not, Option, none, some, List, [], ◌∷◌, Result, ok, err, if◌then◌else◌,
}
use cloudbridge_client.Prelude.Int.{ℤ}
use cloudbridge_client.Prelude.Time.{Time}
use cloudbridge_client.Configuration.Addresses.{TextLib, Endpoints, grpc_target}
pub mod Adapter
pub mod Protocol

-- `TransportMode`.
pub data Mode : Type 0 where
  json grpc : Mode

abbrev pub mode_name : Mode → String
mode_name json = "json"
mode_name grpc = "grpc"

abbrev pub same_mode : Mode → Mode → Bool
same_mode json json = true
same_mode json grpc = false
same_mode grpc json = false
same_mode grpc grpc = true

-- `HelloResult`, `AuthResult`, `TunnelResult` and `HeartbeatResult`.
pub record HelloResult : Type 0 where
  pub status : String
  pub server_version : String
  pub supported_features : List String
  pub session_id : String
  pub error_message : String

pub record AuthResult : Type 0 where
  pub status : String
  pub client_id : String
  pub tenant_id : String
  pub session_token : String
  pub expires_at : Time
  pub error_message : String

pub record TunnelResult : Type 0 where
  pub status : String
  pub tunnel_id : String
  pub endpoint : String
  pub error_message : String

pub record HeartbeatResult : Type 0 where
  pub status : String
  pub server_timestamp : Time
  pub interval_seconds : ℤ
  pub error_message : String

-- What is sent, the authorization of the metadata last; of the metrics of a heartbeat, the mode, which is
-- all that the adapter sets.
pub data Request : Type 0 where
  hello_request : String → List String → Option String → Request
  auth_request : String → Option String → Request
  tunnel_request : String → String → ℤ → String → ℤ → Option String → Request
  heartbeat_request : String → String → Mode → Request

pub data Call : Type 0 where
  dialled : ℕ → Call
  refused : Call
  closed : ℕ → Call
  sent : ℕ → Request → Call

-- The settings of `createTLSConfigForGRPC`.
pub record Tls : Type 0 where
  pub skip_verify : Bool
  pub server_name : String

-- `grpc.DialContext`, with whether the context is done; the remote calls; `os.Getenv` of the token; and
-- `int32` of an int.
pub record Network : Type 0 where
  pub dial : List Call → Bool → String → Option Tls → Option ℕ
  pub hello : List Call → Request → Option HelloResult
  pub authenticate : List Call → Request → Option AuthResult
  pub create_tunnel : List Call → Request → Option TunnelResult
  pub heartbeat : List Call → Request → Option HeartbeatResult
  pub env_token : List Call → String
  pub to_int32 : ℤ → ℤ

pub record Settings : Type 0 where
  pub endpoints : Endpoints
  pub tls_enabled : Bool
  pub verify_cert : Bool
  pub server_name : String

-- `panicked` is the use of a nil pointer.
pub data Error : Type 0 where
  panicked already_connected no_host no_dial not_connected call_failed : Error
  not_ok : String → Error
  unsupported : String → Error

-- `GRPCClient`.
pub record Client : Type 0 where
  pub connected : Bool
  pub conn : Option ℕ
  pub cancelled : Bool
  pub log : List Call

-- `NewGRPCClient`.
unfoldable pub new_client : Client
new_client = record { connected = false; conn = none; cancelled = false; log = [] }

-- `buildConnectionOptions` over `createTLSConfigForGRPC`.
unfoldable pub build_connection_options : Settings → Option Tls
build_connection_options s =
    if s.tls_enabled
    then some (record {
      skip_verify = not s.verify_cert;
      server_name = if str_eq s.server_name "" then s.endpoints.host else s.server_name;
    })
    else none

-- `Disconnect`.
abbrev closing : Option ℕ → List Call → List Call
closing none log = log
closing (some h) log = closed h ∷ log

unfoldable pub disconnect : Client → Client
disconnect c = if c.connected then record c { connected = false; log = closing c.conn c.log } else c

-- `Close`.
unfoldable pub close : Client → Client
close c = disconnect (record c { cancelled = true })

module _ (lib : TextLib) (net : Network) (s : Settings) where
  -- `Connect`.
  unfoldable pub connect : Client → Option Error × Client
  connect c =
      let target = grpc_target lib s.endpoints in
      if c.connected
      then (some already_connected, c)
      else if str_eq target ""
      then (some no_host, c)
      else elim (net.dial c.log c.cancelled target (build_connection_options s)) [
        | none ↦ (some no_dial, record c { log = refused ∷ c.log })
        | some h ↦ (none, record c { connected = true; conn = some h; log = dialled h ∷ c.log })
      ]

module _ (net : Network) where
  -- The frame of the remote calls of `GRPCTransport`.
  unfoldable pub remote :
      {A : Type 0} → (List Call → Request → Option A) → Request → Client → Result Error A × Client
  remote answer r c = if not c.connected then (err not_connected, c) else elim c.conn [
    | none ↦ (err panicked, c)
    | some h ↦ (
      elim (answer c.log r) [ none ↦ err call_failed | some a ↦ ok a ],
      record c { log = sent h r ∷ c.log },
    )
  ]

  -- The authorization from the environment.
  abbrev pub bearer : String → Option String
  bearer token = if str_eq token "" then none else some (String.◌++◌ "Bearer " token)

  unfoldable pub hello : String → List String → Client → Result Error HelloResult × Client
  hello version features c =
      remote net.hello (hello_request version features (bearer (net.env_token c.log))) c

  -- The token of the environment, or the argument.
  abbrev pub chosen_token : String → String → String
  chosen_token env token = if str_eq env "" then token else env

  unfoldable pub authenticate : String → Client → Result Error AuthResult × Client
  authenticate token c =
      let chosen = chosen_token (net.env_token c.log) token in
      remote net.authenticate (auth_request chosen (bearer chosen)) c

  unfoldable pub create_tunnel :
      String → String → ℤ → String → ℤ → Client → Result Error TunnelResult × Client
  create_tunnel id tenant local host port c =
      remote net.create_tunnel
        (tunnel_request id tenant (net.to_int32 local) host (net.to_int32 port)
          (bearer (net.env_token c.log)))
        c

  unfoldable pub send_heartbeat :
      String → String → Mode → Client → Result Error HeartbeatResult × Client
  send_heartbeat client tenant mode c =
      remote net.heartbeat (heartbeat_request client tenant mode) c
