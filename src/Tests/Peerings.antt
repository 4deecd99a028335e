-- ===== src/Tests/Peerings.antt =====
-- pkg/p2p/manager.go: managers over a network that answers everything, and their mesh.
use Prim.Native.String.{String}
use text.Mathlib.Text.{◌==◌ as str_eq}
use cloudbridge_client.Prelude.{
  ℕ, ◌≡◌, ◌≢◌, ◌↔◌, ◌⊎◌, refl, true, false, none, some, [], ◌∷◌, ok, ◌==◌, if◌then◌else◌,
}
use cloudbridge_client.Prelude.Int.{pos}
use cloudbridge_client.Prelude.StringMap.{lookup}
use cloudbridge_client.Api.Client.{
  Decoder, answered, do_request_with_retry, attempts, do_request, attempt as request,
}
use cloudbridge_client.Api.Calls.{
  replied, IceCandidate, send_ice_signaling, get_remote_ice_candidates, post_json_request,
  stream_reply, succeeded,
}
use cloudbridge_client.Api.WireGuard
use cloudbridge_client.Api.WireGuard.{
  System, ConfigResponse, Disk, save_wireguard_config, save_with_backup, make_backup, write_file,
  extract_interface_name, has_line,
}
use cloudbridge_client.Ice.{Agent, panicked, returned, gather_candidates}
use cloudbridge_client.Quic
use cloudbridge_client.Quic.{new_quic_connection, set_client_tls_config, create_stream, keep_stream}
use cloudbridge_client.Mesh.{Mesh, new_mesh}
use cloudbridge_client.Mesh.Owners.{FollowsOwners}
use cloudbridge_client.P2p.{
  P2pManager, PeerConnection, Services, new_p2p_manager, get_active_peers, derive_relay_addr,
  relay_port,
}
use cloudbridge_client.P2p.Settings.{no_config, fill_defaults}
use cloudbridge_client.P2p.Connect.{
  RelayTry, connect_to_relay_server, relay_tls, is_loopback, is_local, auth_exchange,
}
use cloudbridge_client.Configuration.Environment.{lacks}
use cloudbridge_client.P2p.Connect.Relays.{relay_login_local}
use cloudbridge_client.P2p.Peers.{
  Attempt, broadcast, connect_to_peer, send_candidates_to_relay, get_remote_candidates_from_relay,
}
use cloudbridge_client.P2p.Peers.Never.{
  has_nil, unparsed_candidate_panics, never_connects, broadcast_fails,
}
use cloudbridge_client.P2p.Overlay.{
  apply_wireguard_config, save_and_apply, get_wireguard_config, fill_ids, misses_ids, store_config,
}
use cloudbridge_client.P2p.Overlay.Applied.{applied_path}
use cloudbridge_client.P2p.Discover.{FoundPeer, Discovered, discovery_tick}
use cloudbridge_client.P2p.Discover.Rounds.{discovery_refreshes, last_found}
use cloudbridge_client.Tests.Managers.{fresh, always}
use cloudbridge_client.Tests.Settings.{parser}

-- A system that allows everything.
abbrev sys : System
sys = record {
  is_blank = λ s. str_eq s "";
  lines = λ s. s ∷ [];
  trim = λ s. s;
  dir = λ s. "/tmp";
  base = λ s. s;
  strip_conf = λ s. s;
  backup_of = λ s. "backup";
  temp_dir = "/tmp/cloudbridge-wg";
  temp = λ t. "/tmp/cloudbridge-wg/wg.conf";
  is_root = true;
  can_mkdir = λ s. true;
  can_write = λ s. true;
  can_rename = λ s. true;
  is_up = λ s. false;
  up_works = λ s. true;
  down_works = λ s. true;
}

abbrev configs : Decoder ConfigResponse
configs = record {
  error_text = λ b. none;
  response = λ seen b. ok (record {
    success = true;
    client_config = "[Interface]";
    peer_ip = "10.0.0.2";
    tenant_cidr = "10.0.0.0/24";
    error = "";
  });
}

abbrev host_candidate : IceCandidate
host_candidate = record {
  foundation = "1";
  component = pos 1;
  transport = "udp";
  priority = pos 5;
  address = "10.0.0.9";
  port = pos 9;
  kind = "host";
}

abbrev pub services : Services
services = record {
  net = λ q. replied 200 [];
  base_url = "https://relay";
  config_base_url = "https://relay";
  acknowledged = record {
    decode = λ b. some (record { success = true; error = "" });
    success = λ a. a.success;
    error_text = λ a. a.error;
  };
  remote_candidates = record {
    decode = λ b. some (record { success = true; candidates = host_candidate ∷ []; error = "" });
    success = λ a. a.success;
    error_text = λ a. a.error;
  };
  credentials = record {
    decode = λ b. some (record { success = true; ufrag = "u"; pwd = "p"; error = "" });
    success = λ a. a.success;
    error_text = λ a. a.error;
  };
  configs = configs;
  ask_config = λ token tenant peer. always configs (answered 200 []);
  sys = sys;
  format = record {
    trim = λ s. s;
    join_host_port = λ h p. h;
    split_host = λ s. some s;
    show = λ n. "1";
  };
}

-- A manager that has registered, with an agent, an API manager and ICE credentials.
abbrev agent : Agent
agent = record { stun_servers = []; turn_servers = []; running = true }

abbrev pub manager : P2pManager ℕ
manager = record (new_p2p_manager parser no_config) {
  api = some fresh;
  ice = some agent;
  mesh = some new_mesh;
  peer_id = "me";
  tenant_id = "tenant";
  token = "a.b.c";
  relay_session_id = "s";
  remote_ufrag = "u";
  remote_pwd = "p";
}

-- Candidates that do not parse.
abbrev pub attempt : Attempt
attempt = record {
  gathering = record { handler = true; begun = true; in_time = true; found = some [] };
  added = true;
  has_local = true;
  sets_remote = true;
  ticks = agent ∷ agent ∷ [];
  pair = none;
  opened = some 4;
  unmarshal = λ s. none;
  now = 7;
}

unparsed_candidate_panics_example :
    ((connect_to_peer services attempt "peer" manager).0 ≡ panicked) ↔ (has_nil (none ∷ []) ≡ true)
unfolding gather_candidates send_candidates_to_relay send_ice_signaling post_json_request
    stream_reply succeeded get_remote_candidates_from_relay get_remote_ice_candidates
unparsed_candidate_panics_example =
    unparsed_candidate_panics services attempt "peer" manager agent [] (none ∷ []) refl refl refl
      refl

abbrev pub peer_connection : PeerConnection
peer_connection = record {
  peer_id = "peer";
  session_id = none;
  stream = 4;
  connected_at = 7;
  last_seen = 7;
}

never_connects_example :
    ((connect_to_peer services attempt "peer" manager).0 ≢ returned (ok peer_connection))
    × ((connect_to_peer services attempt "peer" manager).1 ≡ manager)
never_connects_example = never_connects services attempt "peer" manager peer_connection

abbrev pub login : RelayTry
login = record { dialled = some 1; opened = some 2; writes = true; reply = some (some "AUTH_OK") }

relay_login_local_example :
    ((manager.relay_host ≡ "")
      ⊎ ((manager.relay_host ≡ "127.0.0.1") ⊎ (manager.relay_host ≡ "localhost")))
    × (login.reply ≡ some (some "AUTH_OK"))
unfolding connect_to_relay_server Quic.connect relay_tls is_loopback is_local derive_relay_addr
    relay_port new_quic_connection set_client_tls_config keep_stream auth_exchange new_p2p_manager
    fill_defaults lacks
relay_login_local_example =
    relay_login_local services.format login manager (λ host port left right. refl) refl refl refl

abbrev pub disk : Disk
disk = record { files = []; ups = []; downs = [] }

applied_path_example :
    (apply_wireguard_config services 3 manager disk).2.ups ≡ "/tmp/wg-client.conf" ∷ []
unfolding apply_wireguard_config get_wireguard_config WireGuard.get_wireguard_config
    WireGuard.apply_wireguard_config save_and_apply save_wireguard_config save_with_backup
    make_backup write_file fill_ids misses_ids store_config do_request_with_retry attempts request
    do_request extract_interface_name has_line
applied_path_example = applied_path services 3 manager disk refl

-- The answer lists one peer twice.
abbrev found_peer : String → FoundPeer
found_peer endpoint = record {
  peer_id = "peer";
  public_key = "key";
  endpoint = endpoint;
  allowed_ips = "10.0.0.9" ∷ [];
  is_online = true;
}

abbrev discovered : Discovered
discovered = record { success = true; peers = found_peer "a" ∷ found_peer "b" ∷ [] }

abbrev discovery : Decoder Discovered
discovery = record { error_text = λ b. none; response = λ seen b. ok discovered }

new-FollowsOwners : FollowsOwners new_mesh.router
unfolding new_mesh lookup
new-FollowsOwners d = refl

discovery_refreshes_example :
    (mn' : Mesh) × ((discovery_tick discovery (always discovery (answered 200 [])) 9 manager).mesh
      ≡ some mn')
    × FollowsOwners mn'.router
    × (lookup "peer" mn'.connected_peers
        ≡ last_found 9 "peer" discovered.peers (lookup "peer" new_mesh.connected_peers))
unfolding do_request_with_retry attempts request do_request
discovery_refreshes_example =
    discovery_refreshes discovery (always discovery (answered 200 [])) 9 manager new_mesh fresh
      discovered "peer" new-FollowsOwners refl refl refl refl

abbrev meeting : P2pManager ℕ
meeting = record manager { connections = ("peer", peer_connection) ∷ [] }

broadcast_fails_example :
    (((broadcast services (λ id. attempt) (λ id. true) meeting).0 ≡ panicked)
      ⊎ ((broadcast services (λ id. attempt) (λ id. true) meeting).0
          ≡ returned
              (if get_active_peers meeting == 0 then none else some (get_active_peers meeting))))
    × ((broadcast services (λ id. attempt) (λ id. true) meeting).1 ≡ meeting)
broadcast_fails_example = broadcast_fails services (λ id. attempt) (λ id. true) meeting
