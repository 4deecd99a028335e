-- ===== src/Mesh/Config.antt =====
-- pkg/p2p/mesh.go: what `Start` demands of the configuration, and the choice of the routing strategy.
use Prim.Native.String.{String}
use text.Mathlib.Text.{◌==◌ as str_eq}
use text.Mathlib.TextEquality.{eq_iff}
use cloudbridge_client.Prelude.{
  ◌≡◌, arith, ◌↔◌, ◌⊎◌, Bool, true, ◌||◌, Option, none, some, if◌then◌else◌,
}
use cloudbridge_client.Prelude.Int.{pos, leb_ℤ, ◌<ℤ◌}
use cloudbridge_client.Prelude.Time.{Duration}
use cloudbridge_client.Mesh.{
  Error, unsupported_routing, invalid_routing, invalid_encryption, bad_topology_interval,
  bad_routing_interval, bad_health_interval,
}

-- `MeshConfig`, the fields that `Start` reads.
pub record Config : Type 0 where
  pub routing : String
  pub encryption : String
  pub topology_interval : Duration
  pub routing_interval : Duration
  pub health_interval : Duration

unfoldable pub is_strategy : String → Bool
is_strategy s = str_eq s "hybrid" || (str_eq s "direct" || str_eq s "relay")

unfoldable pub is_cipher : String → Bool
is_cipher s = str_eq s "quic" || str_eq s "tls"

-- `validateConfig`: the first test that fails gives the error.
unfoldable pub validate_config : Config → Option Error
validate_config c =
    if is_strategy c.routing || str_eq c.routing ""
    then if is_cipher c.encryption || str_eq c.encryption ""
      then if leb_ℤ c.topology_interval (pos 0)
        then some (bad_topology_interval c.topology_interval)
        else if leb_ℤ c.routing_interval (pos 0)
        then some (bad_routing_interval c.routing_interval)
        else if leb_ℤ c.health_interval (pos 0)
        then some (bad_health_interval c.health_interval)
        else none
      else some (invalid_encryption c.encryption)
    else some (invalid_routing c.routing)

-- `initializeRouting`; the three initialisers only log.
unfoldable pub initialize_routing : Config → Option Error
initialize_routing c = if is_strategy c.routing then none else some (unsupported_routing c.routing)

-- `Start`, up to its goroutines.
unfoldable pub start : Config → Option Error
start c = elim (validate_config c) [ some e ↦ some e | none ↦ initialize_routing c ]

-- What a configuration has that starts.
pub record IsStartable (c : Config) : Type 0 where
  pub routes : (c.routing ≡ "hybrid") ⊎ ((c.routing ≡ "direct") ⊎ (c.routing ≡ "relay"))
  pub encrypts : (c.encryption ≡ "quic") ⊎ ((c.encryption ≡ "tls") ⊎ (c.encryption ≡ ""))
  pub topology : pos 0 <ℤ c.topology_interval
  pub routing_pos : pos 0 <ℤ c.routing_interval
  pub health : pos 0 <ℤ c.health_interval

strategy_iff :
    (s : String) → (is_strategy s ≡ true) ↔ ((s ≡ "hybrid") ⊎ ((s ≡ "direct") ⊎ (s ≡ "relay")))
unfolding is_strategy
strategy_iff s = ground (arith, eq_iff s "hybrid", eq_iff s "direct", eq_iff s "relay")

cipher_iff :
    (s : String) → ((is_cipher s || str_eq s "") ≡ true) ↔ ((s ≡ "quic") ⊎ ((s ≡ "tls") ⊎ (s ≡ "")))
unfolding is_cipher
cipher_iff s = ground (arith, eq_iff s "quic", eq_iff s "tls", eq_iff s "")

-- The mesh starts exactly if the routing is one of the three strategies, the encryption is one of
-- the two or empty, and the three intervals are positive.
pub start_iff : (c : Config) → (start c ≡ none) ↔ IsStartable c
unfolding start validate_config initialize_routing
start_iff c = (
  λ h. record {
    routes = ground (arith, strategy_iff c.routing);
    encrypts = ground (arith, cipher_iff c.encryption);
    topology = ground arith;
    routing_pos = ground arith;
    health = ground arith;
  },
  λ v. ground (
    arith,
    strategy_iff c.routing,
    cipher_iff c.encryption,
    v.routes,
    v.encrypts,
    v.topology,
    v.routing_pos,
    v.health,
  ),
)
