-- ===== src/Tests/Slos.antt =====
-- pkg/slo/controller.go, pkg/relay/wireguard.go and the client's P2P manager at concrete inputs.

use cloudbridge_client.Prelude.{
  ℕ, ◌+◌, ◌-◌, ◌*◌, ◌/◌, ◌==◌, ◌≡◌, ◌≢◌, ◌↔◌, refl, ltb, true, false, none, [],
}
use cloudbridge_client.Prelude.Int.{pos, mul64, ◌≤ℤ◌}
use cloudbridge_client.Prelude.Time.{seconds, millisecond}
use cloudbridge_client.Slo.{Float64, SloController, new_slo_controller, update, get_sli_status}
use cloudbridge_client.Slo.Decisions.{Scores, healthy_iff}
use cloudbridge_client.RelayWireguard.{System, Manager, connect, show_link, link_up}
use cloudbridge_client.RelayWireguard.Cleanup.{IsClean, connect-IsClean}
use cloudbridge_client.RelayClient.Peering.{PeerSettings, initialize_p2p_manager, mesh_login_fails}
use cloudbridge_client.Tests.Auths.{lib, outside}
use cloudbridge_client.Tests.Managers.{relay, auth}
use cloudbridge_client.Tests.Settings.{parser, mesh_token, read_config, read_mesh, reads}
use cloudbridge_client.Tests.Peerings.{services, disk}
use cloudbridge_client.Tests.Lives.{try_start}

-- Hundredths that are not negative.
abbrev floats : Float64
floats = record {
  F = ℕ;
  add = λ a b. a + b;
  sub = λ a b. a - b;
  mul = λ a b. a * b / 100;
  div = λ a b. a * 100 / b;
  less = λ a b. ltb a b;
  is_zero = λ a. a == 0;
  of_duration = λ d. 0;
  of_ms = λ d. 0;
  truncated = λ a. pos (a / 100);
  f0 = 0;
  f1 = 100;
  f10 = 1000;
  f50 = 5000;
  f100 = 10000;
  f1000 = 100000;
  f0_01 = 1;
  f0_2 = 20;
  f0_3 = 30;
  f0_8 = 80;
}

scores : Scores floats
scores = record {
  full = refl;
  full_positive = refl;
  zero = refl;
  rtt = refl;
  both = refl;
  all = refl;
  rtt_jitter = refl;
  jitter = refl;
}

abbrev controller : SloController floats
controller = update floats 90000 0 500 (new_slo_controller floats none)

healthy_iff_example : ((get_sli_status floats controller).healthy ≡ true) ↔ (
    (mul64 (floats.truncated controller.rtt_ema) millisecond ≤ℤ pos (120 * millisecond))
    × (ltb 1 controller.loss_ema ≡ false)
    × (mul64 (floats.truncated controller.jitter_ema) millisecond ≤ℤ pos (25 * millisecond)))
healthy_iff_example = healthy_iff floats controller scores

-- A system without the interface, on which nothing comes up.
abbrev system : System
system = record {
  works = λ log c. elim c [ show_link ↦ false | link_up ↦ false | _ ↦ true ];
  peers = λ log. [];
  trim = λ s. s;
  has_wg = true;
}

abbrev wireguard : Manager
wireguard = record { interface_name = "wg0"; mtu = pos 1420; connected = false; log = [] }

connect-IsClean_example : IsClean system wireguard (connect system wireguard)
connect-IsClean_example = connect-IsClean system wireguard

abbrev settings : PeerSettings
settings = record {
  heartbeat_interval = seconds 10;
  heartbeat_timeout = pos 0;
  route_monitoring = false;
  signaling_enabled = false;
  endpoints = record {
    host = "relay";
    port = pos 0;
    http_api = pos 0;
    p2p_api = pos 0;
    quic = pos 0;
    quic_main = pos 0;
    grpc = pos 0;
    api_base_url = "";
    websocket_endpoint = "";
  };
}

mesh_login_fails_example :
    (initialize_p2p_manager lib outside relay parser services try_start settings mesh_token auth
      "a.b.c" disk).0
    ≢ none
mesh_login_fails_example =
    mesh_login_fails lib outside relay parser services try_start settings mesh_token auth "a.b.c"
      disk read_config read_mesh reads refl
