-- ===== src/Tests/Relays.antt =====
-- pkg/relay/client.go: a client over an adapter that answers, one login and one tunnel.
use Prim.Native.String.{String}
use cloudbridge_client.Prelude.{ℕ, ◌≡◌, ◌≢◌, refl, true, false, none, some, [], ok}
use cloudbridge_client.Prelude.Int.{pos}
use cloudbridge_client.Prelude.StringMap.{lookup, insert}
use cloudbridge_client.Auth.{AuthManager}
use cloudbridge_client.Auth.Claims.{get}
use cloudbridge_client.Auth.Validate.{
  secret_candidates, wants_fallback, candidates, try_candidates, validate_jwt_token, validate_token,
}
use cloudbridge_client.Auth.Extract.{
  extract_claims, extract_subject, extract_tenant_id, extract_connection_type, map_connection_type,
}
use cloudbridge_client.Tunnel.Registry.{
  Manager, register_tunnel_with_endpoint, validate_tunnel_params, is_port_in_use, taken,
}
use cloudbridge_client.RelayClient.{
  Client, World, Run, returned, connect, reconnect, send_heartbeat,
}
use cloudbridge_client.RelayClient.Locks.{
  Ends, connect-Ends, heartbeat_never_succeeds, reconnect_blocks,
}
use cloudbridge_client.RelayClient.Tunnels.{
  Request, Answered, Registered, create_by_adapter, create_tunnel, tunnel_created,
}
use cloudbridge_client.RelayClient.Login.{
  Session, Login, start_p2p, log_in, authenticate, IsLoggedIn, authenticate-IsLoggedIn,
}
use cloudbridge_client.Tests.Auths.{lib, outside, config}

abbrev world : World
world = record {
  now = 7;
  adapter_connect = true;
  adapter_hello = true;
  adapter_heartbeat = true;
  tls = true;
  dial = true;
  send = true;
  dial_hangs = false;
  silent = false;
  receive = none;
}

abbrev idle : Client
idle = record {
  connected = false;
  use_transport_adapter = true;
  conn = false;
  has_switch = false;
  has_watcher = false;
  has_metrics = false;
  last_heartbeat = 0;
  events = none;
  writer = false;
  readers = 0;
  cancelled = false;
  log = [];
}

abbrev connected : Client
connected = record idle { connected = true }

connect-Ends_example : Ends world idle (connect world idle)
connect-Ends_example = connect-Ends world idle (refl, refl)

heartbeat_never_succeeds_example : send_heartbeat world connected ≢ returned (ok tt) connected
heartbeat_never_succeeds_example = heartbeat_never_succeeds world connected connected

reconnect_blocks_example : reconnect world connected ≡ Run.blocked
reconnect_blocks_example = reconnect_blocks world connected

abbrev request : Request
request = record {
  id = "web";
  local_port = pos 8080;
  remote_host = "10.0.0.1";
  remote_port = pos 80;
  bindable = λ port. true;
  endpoint = some "relay:40000";
}

abbrev after : Manager
unfolding create_tunnel create_by_adapter register_tunnel_with_endpoint validate_tunnel_params
    is_port_in_use taken insert lookup
after = (create_tunnel world connected request []).1

created : create_tunnel world connected request [] ≡ (ok tt, after)
unfolding after create_tunnel create_by_adapter register_tunnel_with_endpoint validate_tunnel_params
    is_port_in_use taken insert lookup
created = refl

tunnel_created_example :
    (connected.connected ≡ true)
    × ((endpoint : String) × Answered world connected request endpoint
        × Registered world request endpoint [] after)
tunnel_created_example = tunnel_created world connected request [] after created

abbrev login : Login
login = record { adapter_client_id = some "client"; p2p_starts = true }

abbrev session : Session
session = record { client_id = ""; tenant_id = ""; token_string = ""; connection_type = "" }

abbrev auth : AuthManager ℕ
auth = record { config = config; jwt_secret = []; jwks_url = ""; jwks_cache = []; fetches = 0 }

accepted : (authenticate lib outside world login connected "a.b.c" session auth).0.0 ≡ ok tt
unfolding authenticate log_in start_p2p validate_token validate_jwt_token try_candidates candidates
    wants_fallback secret_candidates extract_claims extract_subject extract_tenant_id
    extract_connection_type map_connection_type get
accepted = refl

authenticate-IsLoggedIn_example :
    (connected.connected ≡ true)
    × IsLoggedIn lib outside "a.b.c" auth
        (authenticate lib outside world login connected "a.b.c" session auth).0.1
authenticate-IsLoggedIn_example =
    authenticate-IsLoggedIn lib outside world login connected "a.b.c" session auth accepted
