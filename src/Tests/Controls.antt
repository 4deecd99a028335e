-- ===== src/Tests/Controls.antt =====
-- pkg/relay/transport at a concrete run.

use cloudbridge_client.Prelude.{true, none, some, [], ◌∷◌, if◌then◌else◌}
use cloudbridge_client.Prelude.Int.{pos}
use cloudbridge_client.Configuration.Addresses.{TextLib}
use cloudbridge_client.GrpcControl.{Network, Settings}
use cloudbridge_client.GrpcControl.Adapter.{
  op_connect, op_mode, op_hello, op_authenticate, run, initialize, new_manager,
}
use cloudbridge_client.GrpcControl.Protocol.{HoldsAt, run-IsFollowed}

abbrev texts : TextLib
texts = record { trim = λ s. s; trim_right_slash = λ s. s; join_host_port = λ host port. host }

-- Every dial succeeds unless the context is done; the relay greets and refuses to log in.
abbrev network : Network
network = record {
  dial = λ log done' target tls. if done' then none else some 7;
  hello = λ log r. some (record {
    status = "ok";
    server_version = "1";
    supported_features = [];
    session_id = "s";
    error_message = "";
  });
  authenticate = λ log r. none;
  create_tunnel = λ log r. none;
  heartbeat = λ log r. none;
  env_token = λ log. "";
  to_int32 = λ n. n;
}

abbrev control : Settings
control = record {
  endpoints = record {
    host = "relay";
    port = pos 0;
    http_api = pos 0;
    p2p_api = pos 0;
    quic = pos 0;
    quic_main = pos 0;
    grpc = pos 0;
    api_base_url = "";
    websocket_endpoint = "";
  };
  tls_enabled = true;
  verify_cert = true;
  server_name = "";
}

run-IsFollowed_example :
    HoldsAt
      (run texts network control
        (op_connect ∷ op_hello "1.0" [] ∷ op_authenticate "t" ∷ op_mode "json" ∷ op_connect ∷ [])
        (initialize new_manager)).grpc_transport
run-IsFollowed_example =
    run-IsFollowed texts network control
      (op_connect ∷ op_hello "1.0" [] ∷ op_authenticate "t" ∷ op_mode "json" ∷ op_connect ∷ [])
