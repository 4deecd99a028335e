-- ===== src/PathSelect/Config.antt =====
-- pkg/pathselect/config.go: the `path_select` block, its defaults, and how zero values are filled.
use Prim.Native.String.{String}
use cloudbridge_client.Prelude.{Bool, false, List, [], ◌∷◌, ◌≡◌, refl, ◌≢◌, arith, if◌then◌else◌}
use cloudbridge_client.Prelude.Int.{pos, leb_ℤ, ◌<ℤ◌}
use cloudbridge_client.Prelude.Time.{Duration, seconds}

pub record Config : Type 0 where
  pub enabled : Bool
  pub order : List String
  pub probe_timeout : Duration
  pub ladder_timeout : Duration
  pub health_interval : Duration
  pub failover_cooldown : Duration
  pub soft_fail : Bool

abbrev pub path_relay_quic : String
path_relay_quic = "relay_quic"

abbrev pub path_grpc_tunnel : String
path_grpc_tunnel = "grpc_tunnel"

unfoldable pub default_config : Config
default_config = record {
  enabled = false;
  order = path_relay_quic ∷ path_grpc_tunnel ∷ [];
  probe_timeout = seconds 5;
  ladder_timeout = seconds 45;
  health_interval = seconds 10;
  failover_cooldown = seconds 15;
  soft_fail = false;
}

-- `if len(c.Order) == 0 { c.Order = append([]string(nil), d.Order...) }`
abbrev or_order : List String → List String → List String
or_order [] d = d
or_order (name ∷ names) d = name ∷ names

-- `if v <= 0 { v = d }`
abbrev or_positive : Duration → Duration → Duration
or_positive v d = if leb_ℤ v (pos 0) then d else v

unfoldable pub normalize : Config → Config
unfolding default_config
normalize c =
    let d = default_config in
    record c {
      order = or_order c.order d.order;
      probe_timeout = or_positive c.probe_timeout d.probe_timeout;
      ladder_timeout = or_positive c.ladder_timeout d.ladder_timeout;
      health_interval = or_positive c.health_interval d.health_interval;
      failover_cooldown = or_positive c.failover_cooldown d.failover_cooldown;
    }

-- What the ladder relies on: something to try, and positive times.
pub record IsUsable (c : Config) : Type 0 where
  pub some_path : c.order ≢ []
  pub probe : pos 0 <ℤ c.probe_timeout
  pub ladder : pos 0 <ℤ c.ladder_timeout
  pub health : pos 0 <ℤ c.health_interval
  pub cooldown : pos 0 <ℤ c.failover_cooldown

or_order_ne : (order : List String) (n : String) (ns : List String) → or_order order (n ∷ ns) ≢ []
or_order_ne [] n ns = λ e. cc
or_order_ne (m ∷ ms) n ns = λ e. cc

-- Whatever the file holds, the filled configuration has a path to try and positive times, and it
-- keeps the switches.
normalize-IsUsable : (c : Config) → IsUsable (normalize c)
unfolding normalize
normalize-IsUsable c = record {
  some_path = or_order_ne c.order path_relay_quic (path_grpc_tunnel ∷ []);
  probe = ground arith;
  ladder = ground arith;
  health = ground arith;
  cooldown = ground arith;
}

or_order_id : (order d : List String) → order ≢ [] → or_order order d ≡ order
or_order_id [] d h = absurd (h refl)
or_order_id (m ∷ ms) d h = refl

-- A configuration that is usable is kept as it is: filling changes only what is missing.
normalize_id : (c : Config) → IsUsable c → normalize c ≡ c
unfolding normalize
normalize_id c u = ground (arith, or_order_id c.order default_config.order u.some_path)
