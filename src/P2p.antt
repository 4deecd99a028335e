-- ===== src/P2p.antt =====
-- pkg/p2p/manager.go: the P2P manager, over the mesh, the API manager, ICE and QUIC. What the network,
-- pion, quic-go and the system answer in one call is an argument.
use Prim.Native.String
use Prim.Native.String.{String}
use text.Mathlib.Text.{◌==◌ as str_eq}
use cloudbridge_client.Prelude.{
  ℕ, zero, suc, ◌<◌, Bool, true, false, ◌&&◌, not, Option, none, some, List, [], ◌∷◌, length, map,
  Result, ok, err, ltb, if◌then◌else◌,
}
use cloudbridge_client.Prelude.Int.{ℤ, pos, ltb_ℤ, leb_ℤ}
use cloudbridge_client.Prelude.Time.{Time, Duration, seconds}
use cloudbridge_client.Prelude.StringMap.{Map}
use cloudbridge_client.Auth.{AuthManager}
use cloudbridge_client.Api.Manager.{Manager as ApiManager, new_manager}
use cloudbridge_client.Api.Client.{Decoder, Tries}
use cloudbridge_client.Api.Calls.{IceCandidate, Network, Codec}
use cloudbridge_client.Api.WireGuard.{ConfigResponse, System}
use cloudbridge_client.Ice.{Agent, Gathering, Candidate}
use cloudbridge_client.Quic.{Quic}
use cloudbridge_client.Mesh.{Mesh}
use cloudbridge_client.Mesh
use cloudbridge_client.P2p.Settings.{
  P2pConfig, Parser, NetworkConfig, fill_defaults, manager_config, or_default, or_text,
}
pub mod Settings
pub mod Connect
pub mod Peers
pub mod Overlay
pub mod Discover
pub mod Life

-- `PeerConnection`. A session is named by the time it was made at.
pub record PeerConnection : Type 0 where
  pub peer_id : String
  pub session_id : Option Time
  pub stream : ℕ
  pub connected_at : Time
  pub last_seen : Time

-- `Manager` and the fields of its `P2PStatus`. The WireGuard client is there where the API manager is.
-- `ticker` is the interval of the heartbeat's ticker; `discovering` and `monitoring` tell whether those
-- goroutines were started.
pub record P2pManager (Pub : Type 0) : Type 0 where
  pub config : P2pConfig
  pub api : Option (ApiManager Pub)
  pub ice : Option Agent
  pub quic : Option Quic
  pub mesh : Option Mesh
  pub cancelled : Bool
  pub session_id : Option Time
  pub peer_id : String
  pub tenant_id : String
  pub token : String
  pub relay_session_id : String
  pub connections : Map PeerConnection
  pub ticker : Option Duration
  pub discovering : Bool
  pub monitoring : Bool
  pub relay_host : String
  pub relay_quic_port : ℤ
  pub skip_data_plane : Bool
  pub ice_signaling_enabled : Bool
  pub peer_ip : String
  pub tenant_cidr : String
  pub wireguard_config : String
  pub local_ufrag : String
  pub local_pwd : String
  pub remote_ufrag : String
  pub remote_pwd : String
  pub is_connected : Bool

-- `strings.TrimSpace`, `net.JoinHostPort`, `net.SplitHostPort` and `%d`.
pub record Format : Type 0 where
  pub trim : String → String
  pub join_host_port : String → ℤ → String
  pub split_host : String → Option String
  pub show : ℤ → String

-- `ICESignalingResponse`, `ICECandidateResponse`, `HeartbeatResponse` and `ICECredentialsResponse`.
pub record Acknowledged : Type 0 where
  pub success : Bool
  pub error : String

pub record RemoteCandidates : Type 0 where
  pub success : Bool
  pub candidates : List IceCandidate
  pub error : String

pub record Credentials : Type 0 where
  pub success : Bool
  pub ufrag : String
  pub pwd : String
  pub error : String

-- What the manager works with: the network behind the API's client, its decoders and its base URLs, the
-- request for a WireGuard configuration, the system, and the text functions.
pub record Services : Type 0 where
  pub net : Network
  pub base_url : String
  pub config_base_url : String
  pub acknowledged : Codec Acknowledged
  pub remote_candidates : Codec RemoteCandidates
  pub credentials : Codec Credentials
  pub configs : Decoder ConfigResponse
  pub ask_config : String → String → String → Tries configs
  pub sys : System
  pub format : Format

abbrev configured_port : Option NetworkConfig → ℤ → ℤ
configured_port none port = port
configured_port (some n) port =
    if leb_ℤ port (pos 0) && ltb_ℤ (pos 0) n.quic_port then n.quic_port else port

module _ {Pub : Type 0} where
  -- The fields that both constructors set.
  abbrev empty_manager : P2pConfig → Option (ApiManager Pub) → P2pManager Pub
  empty_manager c api = record {
    config = c;
    api = api;
    ice = none;
    quic = none;
    mesh = none;
    cancelled = false;
    session_id = none;
    peer_id = "";
    tenant_id = "";
    token = "";
    relay_session_id = "";
    connections = [];
    ticker = none;
    discovering = false;
    monitoring = false;
    relay_host = "";
    relay_quic_port = pos 0;
    skip_data_plane = false;
    ice_signaling_enabled = false;
    peer_ip = "";
    tenant_cidr = "";
    wireguard_config = "";
    local_ufrag = "";
    local_pwd = "";
    remote_ufrag = "";
    remote_pwd = "";
    is_connected = false;
  }

  -- `NewManager`; an invalid configuration is only logged.
  unfoldable pub new_p2p_manager : Parser → P2pConfig → P2pManager Pub
  new_p2p_manager p config = empty_manager (fill_defaults p config) none

  -- `NewManagerWithAPI`, with the interval and the route monitoring of the API's configuration.
  unfoldable pub new_manager_with_api :
      Parser → Option P2pConfig → Duration → Bool → AuthManager Pub → String → P2pManager Pub
  new_manager_with_api p config api_interval routes am token =
      let c = manager_config p api_interval config in
      empty_manager c (some (new_manager am token c.tenant_id routes))

  -- `SetRelayQUICEndpoint`, `SetICESignalingEnabled` and `SetSkipDataPlane`.
  unfoldable pub set_relay_quic_endpoint : Format → String → ℤ → P2pManager Pub → P2pManager Pub
  set_relay_quic_endpoint f host port m = record m {
    relay_host = f.trim host;
    relay_quic_port = if ltb_ℤ (pos 0) port then port else m.relay_quic_port;
  }

  unfoldable pub set_ice_signaling_enabled : Bool → P2pManager Pub → P2pManager Pub
  set_ice_signaling_enabled enabled m = record m { ice_signaling_enabled = enabled }

  unfoldable pub set_skip_data_plane : Bool → P2pManager Pub → P2pManager Pub
  set_skip_data_plane skip m = record m { skip_data_plane = skip }

  -- `deriveRelayAddrFromConfig`.
  unfoldable pub relay_port : P2pManager Pub → ℤ
  relay_port m =
      let port = configured_port m.config.network_config m.relay_quic_port in
      if leb_ℤ port (pos 0) then pos 5553 else port

  unfoldable pub derive_relay_addr : Format → P2pManager Pub → String
  derive_relay_addr f m = f.join_host_port (or_text "127.0.0.1" m.relay_host) (relay_port m)

  -- `IsL3OverlayReady`.
  unfoldable pub is_l3_overlay_ready : P2pManager Pub → Bool
  is_l3_overlay_ready m =
      not (str_eq m.peer_ip "")
      && (not (str_eq m.tenant_cidr "") && not (str_eq m.wireguard_config ""))

  -- `GetActivePeers` and `GetConnectedPeers`.
  unfoldable pub get_active_peers : P2pManager Pub → ℕ
  get_active_peers m = length m.connections

  unfoldable pub get_connected_peers : P2pManager Pub → List String
  get_connected_peers m = map (λ (id, c). id) m.connections

  -- `GetTotalPeers`.
  unfoldable pub get_total_peers : P2pManager Pub → ℕ
  get_total_peers m = elim m.mesh [ none ↦ 0 | some mn ↦ Mesh.get_active_peers mn ]

-- `P2PStatus`, the fields that `GetStatus` fills.
pub record Status : Type 0 where
  pub is_connected : Bool
  pub connection_type : String
  pub active_connections : ℕ
  pub l3_overlay_ready : Bool
  pub peer_ip : String
  pub tenant_cidr : String
  pub wireguard_ready : Bool

-- `GetStatus`.
unfoldable pub get_status : {Pub : Type 0} → P2pManager Pub → Status
get_status m = record {
  is_connected = m.is_connected;
  connection_type = m.config.connection_type;
  active_connections = length m.connections;
  l3_overlay_ready = is_l3_overlay_ready m;
  peer_ip = m.peer_ip;
  tenant_cidr = m.tenant_cidr;
  wireguard_ready = not (str_eq m.wireguard_config "");
}
