-- ===== src/Mesh/Routes.antt =====
-- pkg/p2p/mesh.go: `findAlternativeRoute` and `updateRouting`. The IP library is a parameter.
use Prim.Native.String.{String}
use Prim.Native.Char.{code}
use text.Mathlib.Text.{◌==◌ as str_eq}
use cloudbridge_client.Prelude.{
  ◌==◌, Bool, false, ◌&&◌, ◌||◌, not, Option, none, some, List, [], ◌∷◌, if◌then◌else◌,
}
use cloudbridge_client.Prelude.StringMap.{Map, lookup}
use cloudbridge_client.Mesh.{Peer, Mesh}

-- What the mesh uses of Go's net package.
pub record NetLib : Type 1 where
  pub Ip : Type 0
  pub Cidr : Type 0
  pub parse_ip : String → Option Ip
  pub parse_cidr : String → Option Cidr
  pub cidr_contains : Cidr → Ip → Bool

-- `strings.Contains(s, "/")`
has_slash : String → Bool
has_slash String.[] = false
has_slash (String.◌∷◌ c s) = code c == b'/' || has_slash s

module _ (net : NetLib) where
  -- `ipInCIDR`.
  unfoldable pub ip_in_cidr : String → String → Bool
  ip_in_cidr ip cidr = elim (net.parse_ip ip) [
    | none ↦ false
    | some a ↦ elim (net.parse_cidr cidr) [ none ↦ false | some n ↦ net.cidr_contains n a ]
  ]

  -- `IsIPInTenantSubnet`.
  unfoldable pub is_ip_in_tenant_subnet : String → String → Bool
  is_ip_in_tenant_subnet ip subnet = if str_eq subnet "" then false else ip_in_cidr ip subnet

  -- The inner loop of `findAlternativeRoute`: whether some allowed entry covers the destination.
  unfoldable pub covers : String → List String → Bool
  unfolding has_slash
  covers dest [] = false
  covers dest (allowed ∷ ips) =
      str_eq allowed dest || (has_slash allowed && ip_in_cidr dest allowed) || covers dest ips

  -- `findAlternativeRoute`.
  unfoldable pub find_alternative_route : String → String → Map Peer → Option (List String)
  find_alternative_route dest excluded [] = none
  find_alternative_route dest excluded ((id, p) ∷ m) =
      let rest = find_alternative_route dest excluded m in
      if str_eq id excluded || not p.is_connected
      then rest
      else if covers dest p.allowed_ips
      then some (id ∷ [])
      else rest

  -- One round of the loop of `updateRouting`.
  unfoldable pub reroute : Map Peer → String → List String → List String
  reroute peers dest [] = []
  reroute peers dest (hop ∷ hops) = elim (lookup hop peers) [
    | none ↦ hop ∷ hops
    | some p ↦
        if p.is_connected
        then hop ∷ hops
        else elim (find_alternative_route dest hop peers) [ none ↦ hop ∷ hops | some alt ↦ alt ]
  ]

  unfoldable pub reroute_all : Map Peer → Map (List String) → Map (List String)
  reroute_all peers [] = []
  reroute_all peers ((dest, route) ∷ m) = (dest, reroute peers dest route) ∷ reroute_all peers m

  -- `updateRouting`.
  unfoldable pub update_routing : Mesh → Mesh
  update_routing mn = record mn {
    router = record (mn.router) {
      routing_table = reroute_all mn.connected_peers mn.router.routing_table;
    };
  }
