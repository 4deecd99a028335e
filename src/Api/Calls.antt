-- ===== src/Api/Calls.antt =====
-- pkg/api/client.go and manager.go: the calls that are made once, without retries. A call asks the
-- network, an argument, with a request; how its body decodes is an argument too.
use Prim.Native.String
use Prim.Native.String.{String}
use Prim.Native.Char.{code}
use text.Mathlib.Text.{◌==◌ as str_eq}
use cloudbridge_client.Prelude.{
  ℕ, ◌==◌, ◌&&◌, Bool, Option, none, some, List, Result, ok, err, if◌then◌else◌,
}
use cloudbridge_client.Prelude.Int.{ℤ}
use cloudbridge_client.Prelude.Time.{Time}
use cloudbridge_client.RelayErrors.Contains.{Bytes}

-- `ICECandidate`.
pub record IceCandidate : Type 0 where
  pub foundation : String
  pub component : ℤ
  pub transport : String
  pub priority : ℤ
  pub address : String
  pub port : ℤ
  pub kind : String

-- The bodies of the requests: `ICESignalingRequest`, `P2PConnectionRequest`, `HeartbeatRequest` and
-- `ICECredentialsRequest`. A session is named by the time it was made at.
pub data Body : Type 0 where
  no_body : Body
  signaling : Option Time → String → List IceCandidate → Body
  connection : Option Time → String → String → Body
  beat : String → String → Body
  credentials : String → String → Body

-- A request: its method, URL, bearer token, the session of its header, and its body.
pub record Request : Type 0 where
  pub method : String
  pub url : String
  pub token : String
  pub session : Option Time
  pub body : Body

-- What a request comes to: nothing, a status with a body that cannot be read, or a status and a body.
pub data Reply : Type 0 where
  not_sent : Reply
  unread : ℕ → Reply
  replied : ℕ → Bytes → Reply

abbrev pub Network : Type 0
Network = Request → Reply

pub data CallError : Type 0 where
  no_reply body_unread not_decoded : CallError
  bad_status : ℕ → CallError
  denied : String → CallError

-- What the calls want of a response: whether it says success, and its error text.
pub record Codec (A : Type 0) : Type 0 where
  pub decode : Bytes → Option A
  pub success : A → Bool
  pub error_text : A → String

-- `strings.TrimSuffix(s, "/")`
unfoldable pub trim_slash : String → String
trim_slash String.[] = ""
trim_slash (String.◌∷◌ c s) =
    let rest = trim_slash s in if code c == b'/' && str_eq s "" then "" else String.◌∷◌ c rest

module _ {A : Type 0} (codec : Codec A) where
  abbrev decoded : Bytes → Result CallError A
  decoded body = elim (codec.decode body) [ none ↦ err not_decoded | some a ↦ ok a ]

  -- The end of a call that decodes straight from the body: `postJSONRequest`.
  unfoldable pub stream_reply : Reply → Result CallError A
  stream_reply not_sent = err no_reply
  stream_reply (unread status) = if status == 200 then err not_decoded else err (bad_status status)
  stream_reply (replied status body) =
      if status == 200 then decoded body else err (bad_status status)

  -- The end of a call that reads the whole body first: `SendHeartbeat` and the ICE credentials.
  unfoldable pub whole_reply : Reply → Result CallError A
  whole_reply not_sent = err no_reply
  whole_reply (unread status) = err body_unread
  whole_reply (replied status body) =
      if status == 200 then decoded body else err (bad_status status)

  -- `if !response.Success`
  unfoldable pub succeeded : Result CallError A → Result CallError A
  succeeded (err e) = err e
  succeeded (ok a) = if codec.success a then ok a else err (denied (codec.error_text a))

  -- `postJSONRequest`.
  unfoldable pub post_json_request : Network → String → String → String → Body → Result CallError A
  post_json_request net base token endpoint body = stream_reply (
      net (record {
        method = "POST";
        url = String.◌++◌ (trim_slash base) endpoint;
        token = token;
        session = none;
        body = body;
      }))

  -- `SendICESignaling` and `RequestP2PConnection`.
  unfoldable pub send_ice_signaling : Network → String → String → Body → Result CallError A
  send_ice_signaling net base token body =
      succeeded (post_json_request net base token "/api/v1/ice/candidates" body)

  unfoldable pub request_p2p_connection : Network → String → String → Body → Result CallError A
  request_p2p_connection net base token body =
      succeeded (post_json_request net base token "/api/v1/p2p/connect" body)

  -- `GetRemoteICECandidates`.
  unfoldable pub get_remote_ice_candidates :
      Network → String → String → Option Time → String → Result CallError A
  get_remote_ice_candidates net base token session target = succeeded (
      stream_reply (
        net (record {
          method = "GET";
          url = String.◌++◌ (trim_slash base) (String.◌++◌ "/api/v1/ice/candidates/" target);
          token = token;
          session = session;
          body = no_body;
        })))

  abbrev peer_url : String → String → String → String → String
  peer_url base tenant peer end' = String.◌++◌ base (
      String.◌++◌ "/api/v1/tenants/"
        (String.◌++◌ tenant (String.◌++◌ "/peers/" (String.◌++◌ peer end'))))

  -- `Manager.SendHeartbeat`, with the base URL of the client and the one of the configuration.
  unfoldable pub send_heartbeat :
      Network → String → String → String → String → String → Body → Result CallError A
  send_heartbeat net base config_base tenant peer token body =
      let trimmed = trim_slash base in
      whole_reply (
        net (record {
          method = "POST";
          url =
              peer_url (if str_eq trimmed "" then trim_slash config_base else trimmed) tenant peer
                "/heartbeat";
          token = token;
          session = none;
          body = body;
        }))

  -- `ExchangeICECredentials` and `GetICECredentials`.
  unfoldable pub exchange_ice_credentials :
      Network → String → String → String → String → Body → Result CallError A
  exchange_ice_credentials net base token tenant peer body = whole_reply (
      net (record {
        method = "POST";
        url = peer_url base tenant peer "/ice-credentials";
        token = token;
        session = none;
        body = body;
      }))

  unfoldable pub get_ice_credentials :
      Network → String → String → String → String → Result CallError A
  get_ice_credentials net base token tenant target = whole_reply (
      net (record {
        method = "GET";
        url = peer_url base tenant target "/ice-credentials";
        token = token;
        session = none;
        body = no_body;
      }))
