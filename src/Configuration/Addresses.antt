-- ===== src/Configuration/Addresses.antt =====
-- pkg/types/addrs.go: the ports and addresses of the relay. `strings` and `net.JoinHostPort` are
-- parameters.
use Prim.Native.String
use Prim.Native.String.{String}
use text.Mathlib.Text.{◌==◌ as str_eq}
use cloudbridge_client.Prelude.{◌≡◌, refl, arith, false, if◌then◌else◌}
use cloudbridge_client.Prelude.Int.{ℤ, pos, ltb_ℤ, ◌<ℤ◌}

pub record TextLib : Type 0 where
  pub trim : String → String
  pub trim_right_slash : String → String
  pub join_host_port : String → ℤ → String

-- `RelayPorts` and the other fields that are read.
pub record Endpoints : Type 0 where
  pub host : String
  pub port : ℤ
  pub http_api : ℤ
  pub p2p_api : ℤ
  pub quic : ℤ
  pub quic_main : ℤ
  pub grpc : ℤ
  pub api_base_url : String
  pub websocket_endpoint : String

-- `portOr`.
unfoldable pub port_or : ℤ → ℤ → ℤ
port_or v standard = if ltb_ℤ (pos 0) v then v else standard

unfoldable pub effective_p2p_api_port : Endpoints → ℤ
effective_p2p_api_port c = port_or c.p2p_api (pos 5552)

unfoldable pub effective_grpc_port : Endpoints → ℤ
effective_grpc_port c = port_or c.grpc (pos 8444)

unfoldable pub effective_p2p_quic_port : Endpoints → ℤ
effective_p2p_quic_port c = port_or c.quic (pos 5553)

unfoldable pub effective_quic_main_port : Endpoints → ℤ
effective_quic_main_port c = port_or c.quic_main (pos 9090)

unfoldable pub effective_http_api_port : Endpoints → ℤ
effective_http_api_port c = port_or c.http_api (pos 9090)

unfoldable pub effective_legacy_tcp_port : Endpoints → ℤ
effective_legacy_tcp_port c = port_or c.port (pos 5550)

module _ (lib : TextLib) where
  unfoldable pub relay_host : Endpoints → String
  relay_host c = lib.trim c.host

  -- `if host == "" { return "" }`
  abbrev at_host : Endpoints → ℤ → String
  at_host c port = if str_eq (relay_host c) "" then "" else lib.join_host_port (relay_host c) port

  unfoldable pub grpc_target : Endpoints → String
  grpc_target c = at_host c (effective_grpc_port c)

  unfoldable pub p2p_quic_addr : Endpoints → String
  p2p_quic_addr c = at_host c (effective_p2p_quic_port c)

  unfoldable pub quic_main_addr : Endpoints → String
  quic_main_addr c = at_host c (effective_quic_main_port c)

  unfoldable pub legacy_tcp_addr : Endpoints → String
  legacy_tcp_addr c = at_host c (effective_legacy_tcp_port c)

  -- `P2PAPIBaseURL`.
  unfoldable pub p2p_api_base_url : Endpoints → String
  p2p_api_base_url c =
      if str_eq (lib.trim c.api_base_url) ""
      then if str_eq (relay_host c) ""
        then ""
        else String.◌++◌ "https://" (lib.join_host_port (relay_host c) (effective_p2p_api_port c))
      else lib.trim_right_slash (lib.trim c.api_base_url)

  -- `WebSocketURL`.
  unfoldable pub websocket_url : Endpoints → String
  websocket_url c =
      if str_eq (lib.trim c.websocket_endpoint) ""
      then if str_eq (relay_host c) ""
        then ""
        else String.◌++◌ "wss://"
            (String.◌++◌ (lib.join_host_port (relay_host c) (effective_p2p_api_port c)) "/ws")
      else lib.trim c.websocket_endpoint

  -- With a host that is not blank, the four addresses are that host with ports above 0.
  addresses_complete :
      (c : Endpoints)
      → str_eq (relay_host c) "" ≡ false
      → ((p : ℤ) × (grpc_target c ≡ lib.join_host_port (relay_host c) p) × (pos 0 <ℤ p))
        × ((p : ℤ) × (p2p_quic_addr c ≡ lib.join_host_port (relay_host c) p) × (pos 0 <ℤ p))
        × ((p : ℤ) × (quic_main_addr c ≡ lib.join_host_port (relay_host c) p) × (pos 0 <ℤ p))
        × ((p : ℤ) × (legacy_tcp_addr c ≡ lib.join_host_port (relay_host c) p) × (pos 0 <ℤ p))
  unfolding grpc_target p2p_quic_addr quic_main_addr legacy_tcp_addr effective_grpc_port
      effective_p2p_quic_port effective_quic_main_port effective_legacy_tcp_port port_or
  addresses_complete c h = (
    (effective_grpc_port c, rw h refl, ground arith),
    (effective_p2p_quic_port c, rw h refl, ground arith),
    (effective_quic_main_port c, rw h refl, ground arith),
    (effective_legacy_tcp_port c, rw h refl, ground arith),
  )
