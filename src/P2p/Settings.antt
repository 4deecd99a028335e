-- ===== src/P2p/Settings.antt =====
-- pkg/p2p/types.go and manager.go: the configuration of the P2P manager, its defaults, how it is read
-- out of a token, and the interval of the heartbeat. `time.ParseDuration` and `strconv.Atoi` are
-- parameters.
use Prim.Native.String.{String}
use text.Mathlib.Text.{◌==◌ as str_eq}
use cloudbridge_client.Prelude.{
  ℕ, Bool, false, ◌&&◌, ◌||◌, Option, none, some, List, [], ◌∷◌, Result, ok, err, if◌then◌else◌,
}
use cloudbridge_client.Prelude.Int.{ℤ, pos, ltb_ℤ, leb_ℤ, eqb_ℤ, wrap64, mul64}
use cloudbridge_client.Prelude.Time.{Duration, millisecond, second, seconds}
use cloudbridge_client.Auth.{Token, Error}
use cloudbridge_client.Auth.Extract
use cloudbridge_client.Auth.Extract.{PeerWhitelist}
use cloudbridge_client.Mesh.Config.{is_strategy, is_cipher}
use cloudbridge_client.Mesh.Config
use cloudbridge_client.Mesh.Routes.{NetLib, is_ip_in_tenant_subnet}
pub mod Filled
pub mod Defaults
pub mod Extracted

-- An `interface{}` that holds an interval; a float64 by its integer part.
pub data Value : Type 0 where
  nothing other : Value
  str : String → Value
  float int int64 : ℤ → Value
  uint64 : ℕ → Value
  duration : Duration → Value

pub record Parser : Type 0 where
  pub parse_duration : String → Option Duration
  pub atoi : String → Option ℤ

-- `MeshConfig`, `NetworkConfig` and `P2PConfig`. The QUIC part is never set nor read.
pub record MeshConfig : Type 0 where
  pub auto_discovery : Bool
  pub persistent : Bool
  pub routing : String
  pub encryption : String
  pub heartbeat_interval : Value
  pub topology_interval : Duration
  pub routing_interval : Duration
  pub health_interval : Duration
  pub peer_stale_after : Duration
  pub peer_dead_after : Duration

pub record NetworkConfig : Type 0 where
  pub subnet : String
  pub dns : List String
  pub mtu : ℤ
  pub stun_servers : List String
  pub turn_servers : List String
  pub quic_port : ℤ
  pub ice_port : ℤ

pub record P2pConfig : Type 0 where
  pub connection_type : String
  pub mesh_config : Option MeshConfig
  pub peer_whitelist : Option PeerWhitelist
  pub network_config : Option NetworkConfig
  pub tenant_id : String
  pub permissions : List String
  pub heartbeat_interval : Duration
  pub heartbeat_timeout : Duration

-- `ConnectionType.Valid`.
unfoldable pub is_connection_type : String → Bool
is_connection_type s = str_eq s "client-server" || (str_eq s "server-server" || str_eq s "p2p-mesh")

-- `ParseFlexibleDuration`: a number counts milliseconds.
unfoldable pub parse_flexible_duration : Parser → Value → Option Duration
parse_flexible_duration p nothing = none
parse_flexible_duration p other = none
parse_flexible_duration p (str s) = if str_eq s "" then none else p.parse_duration s
parse_flexible_duration p (float n) = some (mul64 n millisecond)
parse_flexible_duration p (int n) = some (mul64 n millisecond)
parse_flexible_duration p (int64 n) = some (mul64 n millisecond)
parse_flexible_duration p (uint64 n) = some (mul64 (wrap64 n) millisecond)
parse_flexible_duration p (duration d) = some d

-- `api.ParseHeartbeatInterval`: a number counts seconds.
unfoldable pub parse_heartbeat_interval : Parser → Value → Duration
parse_heartbeat_interval p (str s) = elim (p.parse_duration s) [
  | some d ↦ d
  | none ↦ elim (p.atoi s) [ some n ↦ mul64 n second | none ↦ seconds 30 ]
]
parse_heartbeat_interval p (int n) = mul64 n second
parse_heartbeat_interval p (float n) = mul64 n second
parse_heartbeat_interval p _ = seconds 30

-- `if d <= 0 { d = ... }`
abbrev pub or_default : Duration → Duration → Duration
or_default standard d = if leb_ℤ d (pos 0) then standard else d

abbrev pub or_text : String → String → String
or_text standard s = if str_eq s "" then standard else s

abbrev pub or_number : ℤ → ℤ → ℤ
or_number standard n = if eqb_ℤ n (pos 0) then standard else n

-- `if d, ok := ParseFlexibleDuration(v); ok { v = d }`
unfoldable pub normal : Parser → Value → Value
normal p v = elim (parse_flexible_duration p v) [ some d ↦ duration d | none ↦ v ]

-- `MeshConfig.FillDefaults` and `NetworkConfig.FillDefaults`.
unfoldable pub fill_mesh_defaults : Parser → MeshConfig → MeshConfig
fill_mesh_defaults p m = record m {
  routing = or_text "hybrid" m.routing;
  encryption = or_text "quic" m.encryption;
  heartbeat_interval = normal p m.heartbeat_interval;
}

unfoldable pub fill_network_defaults : NetworkConfig → NetworkConfig
fill_network_defaults n = record n {
  mtu = or_number (pos 1420) n.mtu;
  quic_port = or_number (pos 5553) n.quic_port;
  ice_port = or_number (pos 19302) n.ice_port;
}

abbrev pub apply_to : {A : Type 0} → (A → A) → Option A → Option A
apply_to f none = none
apply_to f (some a) = some (f a)

-- `P2PConfig.FillDefaults`.
unfoldable pub fill_defaults : Parser → P2pConfig → P2pConfig
fill_defaults p c = record c {
  heartbeat_interval = or_default (seconds 30) c.heartbeat_interval;
  heartbeat_timeout = or_default (seconds 10) c.heartbeat_timeout;
  mesh_config = apply_to (fill_mesh_defaults p) c.mesh_config;
  network_config = apply_to fill_network_defaults c.network_config;
  connection_type = if is_connection_type c.connection_type then c.connection_type else "p2p-mesh";
}

pub data ConfigError : Type 0 where
  invalid_connection_type invalid_routing invalid_encryption : String → ConfigError

-- `P2PConfig.Validate`.
unfoldable pub validate : P2pConfig → Option ConfigError
validate c =
    if is_connection_type c.connection_type
    then elim c.mesh_config [
      | none ↦ none
      | some m ↦
          if is_strategy m.routing || str_eq m.routing ""
          then if is_cipher m.encryption || str_eq m.encryption ""
            then none
            else some (invalid_encryption m.encryption)
          else some (invalid_routing m.routing)
    ]
    else some (invalid_connection_type c.connection_type)

-- `NetworkConfig.ContainsIP`.
unfoldable pub contains_ip : NetLib → Option NetworkConfig → String → Bool
contains_ip net none ip = false
contains_ip net (some n) ip = is_ip_in_tenant_subnet net ip n.subnet

-- The conversions of `ExtractP2PConfigFromToken`.
unfoldable pub convert_mesh : Extract.MeshConfig → MeshConfig
convert_mesh m = record {
  auto_discovery = m.auto_discovery;
  persistent = m.persistent;
  routing = m.routing;
  encryption = m.encryption;
  heartbeat_interval = nothing;
  topology_interval = pos 0;
  routing_interval = pos 0;
  health_interval = pos 0;
  peer_stale_after = pos 0;
  peer_dead_after = pos 0;
}

unfoldable pub convert_network : Extract.NetworkConfig → NetworkConfig
convert_network n = record {
  subnet = n.subnet;
  dns = n.dns;
  mtu = n.mtu;
  stun_servers = "edge.2gc.ru:19302" ∷ [];
  turn_servers = [];
  quic_port = pos 5553;
  ice_port = pos 19302;
}

abbrev pub convert : {A B : Type 0} → (A → B) → Option A → Option B
convert f none = none
convert f (some a) = some (f a)

-- One step of a chain that ends at the first error.
abbrev pub then_ok : {A B : Type 0} → Result Error A → (A → Result Error B) → Result Error B
then_ok (err e) f = err e
then_ok (ok a) f = f a

-- `ExtractP2PConfigFromToken`.
unfoldable pub extract_p2p_config_from_token : Parser → Token → Result Error P2pConfig
extract_p2p_config_from_token p t = then_ok (Extract.extract_connection_type t) (λ kind.
    then_ok (Extract.extract_network_config t) (λ network.
      then_ok (Extract.extract_mesh_config t) (λ mesh.
        then_ok (Extract.extract_peer_whitelist t) (λ whitelist.
          then_ok (Extract.extract_permissions t) (λ permissions.
            then_ok (Extract.extract_tenant_id t) (λ tenant. ok (
              fill_defaults p (record {
                connection_type = kind;
                mesh_config = convert convert_mesh mesh;
                peer_whitelist = whitelist;
                network_config = convert convert_network network;
                tenant_id = tenant;
                permissions = permissions;
                heartbeat_interval = pos 0;
                heartbeat_timeout = pos 0;
              }))))))))

-- `ApplyClientP2PDefaults`.
unfoldable pub apply_client_p2p_defaults :
    Parser → Option P2pConfig → Duration → Duration → Option P2pConfig
apply_client_p2p_defaults p none interval timeout = none
apply_client_p2p_defaults p (some c) interval timeout = some (
    fill_defaults p (record c {
      heartbeat_interval = or_default c.heartbeat_interval interval;
      heartbeat_timeout = or_default c.heartbeat_timeout timeout;
    }))

-- The choice of the interval in `NewManagerWithAPI`, from a configuration with its defaults; the
-- configuration of the API is there, since the code reads it without a test.
abbrev from_mesh : Parser → Option MeshConfig → Duration → Duration
from_mesh p none d = d
from_mesh p (some m) d = elim m.heartbeat_interval [
  | nothing ↦ d
  | v ↦ if leb_ℤ d (pos 0) then parse_heartbeat_interval p v else d
]

unfoldable pub choose_interval : Parser → Duration → P2pConfig → Duration
choose_interval p api c =
    let mesh = from_mesh p c.mesh_config c.heartbeat_interval in
    or_default (seconds 30) (if leb_ℤ mesh (pos 0) && ltb_ℤ (pos 0) api then api else mesh)

abbrev pub no_config : P2pConfig
no_config = record {
  connection_type = "";
  mesh_config = none;
  peer_whitelist = none;
  network_config = none;
  tenant_id = "";
  permissions = [];
  heartbeat_interval = pos 0;
  heartbeat_timeout = pos 0;
}

abbrev pub or_empty : Option P2pConfig → P2pConfig
or_empty none = no_config
or_empty (some c) = c

-- What `NewManagerWithAPI` does to the configuration.
unfoldable pub manager_config : Parser → Duration → Option P2pConfig → P2pConfig
manager_config p api config =
    let c = fill_defaults p (or_empty config) in
    record c { heartbeat_interval = choose_interval p api c }

-- `NewMeshNetwork`, which fills the defaults, and what its `Start` reads of the configuration.
unfoldable pub mesh_settings : Parser → MeshConfig → Config.Config
mesh_settings p config =
    let m = fill_mesh_defaults p config in
    record {
      routing = m.routing;
      encryption = m.encryption;
      topology_interval = m.topology_interval;
      routing_interval = m.routing_interval;
      health_interval = m.health_interval;
    }
