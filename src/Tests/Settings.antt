-- ===== src/Tests/Settings.antt =====
-- pkg/p2p/types.go: a token with a mesh and a network part, and what is read out of it.

use cloudbridge_client.Prelude.{◌≡◌, refl, true, false, none, some, [], ◌∷◌, ok}
use cloudbridge_client.Prelude.Int.{pos}
use cloudbridge_client.Prelude.Time.{seconds}
use cloudbridge_client.Auth.{string, number, object, Fields, empty, field, Token}
use cloudbridge_client.Auth.Claims.{get}
use cloudbridge_client.Auth.Extract.{
  extract_connection_type, extract_network_config, extract_mesh_config, extract_peer_whitelist,
  extract_permissions, extract_tenant_id, map_connection_type,
}
use cloudbridge_client.P2p.Settings.{
  Parser, nothing, MeshConfig, P2pConfig, extract_p2p_config_from_token, fill_defaults,
  fill_mesh_defaults, fill_network_defaults, convert_mesh, convert_network, is_connection_type,
  normal, parse_flexible_duration,
}

abbrev pub parser : Parser
parser = record { parse_duration = λ s. none; atoi = λ s. none }

-- The mesh part asks for a heartbeat every 10 (seconds or milliseconds).
abbrev mesh_claims : Fields
mesh_claims = field "routing" (string "direct") (field "heartbeat_interval" (number (pos 10)) empty)

abbrev pub mesh_token : Token
mesh_token = record {
  is_hmac = true;
  alg = "HS256";
  kid = none;
  claims = some (
      field "connection_type" (string "wireguard") (
        field "tenant_id" (string "tenant") (
          field "mesh_config" (object mesh_claims) (field "network_config" (object empty) empty))));
  valid = true;
}

abbrev pub read_mesh : MeshConfig
read_mesh = record {
  auto_discovery = false;
  persistent = false;
  routing = "direct";
  encryption = "quic";
  heartbeat_interval = nothing;
  topology_interval = pos 0;
  routing_interval = pos 0;
  health_interval = pos 0;
  peer_stale_after = pos 0;
  peer_dead_after = pos 0;
}

abbrev pub read_config : P2pConfig
read_config = record {
  connection_type = "p2p-mesh";
  mesh_config = some read_mesh;
  peer_whitelist = none;
  network_config = some (record {
    subnet = "";
    dns = [];
    mtu = pos 1420;
    stun_servers = "edge.2gc.ru:19302" ∷ [];
    turn_servers = [];
    quic_port = pos 5553;
    ice_port = pos 19302;
  });
  tenant_id = "tenant";
  permissions = [];
  heartbeat_interval = seconds 30;
  heartbeat_timeout = seconds 10;
}

pub reads : extract_p2p_config_from_token parser mesh_token ≡ ok read_config
unfolding extract_p2p_config_from_token fill_defaults fill_mesh_defaults fill_network_defaults
    convert_mesh convert_network extract_connection_type extract_network_config extract_mesh_config
    extract_peer_whitelist extract_permissions extract_tenant_id get map_connection_type
    is_connection_type normal parse_flexible_duration
reads = refl
