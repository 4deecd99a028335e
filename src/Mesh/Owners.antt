-- ===== src/Mesh/Owners.antt =====
-- The router's tables after calls of pkg/p2p/mesh.go: who owns a destination and where its route goes.
use Prim.Native.String.{String}
use text.Mathlib.Text.{◌==◌ as str_eq}
use text.Mathlib.TextPositions.{eq_refl}
use cloudbridge_client.Prelude.{
  ◌≡◌, refl, arith, Bool, false, Option, none, some, List, [], ◌∷◌, Bool-cases, inl, inr, ◌⊎◌, ◌||◌,
  ◌&&◌,
}
use cloudbridge_client.Prelude.Int.{ℤ}
use cloudbridge_client.Prelude.StringMap.{Map, lookup, lookup-insert, lookup-delete}
use cloudbridge_client.Mesh.{
  Peer, Router, set_route, set_routes, update_routing_for_peer, drop_route, drop_owned,
  remove_routing_for_peer,
}

-- The route that an owner gives: to the owner itself.
abbrev pub direct : Option String → Option (List String)
direct none = none
direct (some owner) = some (owner ∷ [])

-- At every destination the route is the one its owner gives.
abbrev pub FollowsOwners : Router → Type 0
FollowsOwners r = (d : String) → lookup d r.routing_table ≡ direct (lookup d r.owner_index)

set_route-FollowsOwners :
    (dest owner : String) (latency : ℤ) (r : Router)
    → FollowsOwners r
    → FollowsOwners (set_route dest owner latency r)
unfolding set_route
set_route-FollowsOwners dest owner latency r h d = ground (
  arith,
  h d,
  lookup-insert dest d (owner ∷ []) r.routing_table,
  lookup-insert dest d owner r.owner_index,
)

set_routes-FollowsOwners :
    (owner : String) (latency : ℤ) (ips : List String) (r : Router)
    → FollowsOwners r
    → FollowsOwners (set_routes owner latency ips r)
unfolding set_routes
set_routes-FollowsOwners owner latency [] r h = h
set_routes-FollowsOwners owner latency (ip ∷ ips) r h =
    set_routes-FollowsOwners owner latency ips _ (set_route-FollowsOwners ip owner latency r h)

pub update_routing_for_peer-FollowsOwners :
    (p : Peer) (r : Router) → FollowsOwners r → FollowsOwners (update_routing_for_peer p r)
unfolding update_routing_for_peer
update_routing_for_peer-FollowsOwners p r h =
    set_routes-FollowsOwners p.id p.latency p.allowed_ips _
      (set_route-FollowsOwners p.id p.id p.latency r h)

drop_route-FollowsOwners :
    (dest : String) (r : Router) → FollowsOwners r → FollowsOwners (drop_route dest r)
unfolding drop_route
drop_route-FollowsOwners dest r h d =
    ground (arith, h d, lookup-delete dest d r.routing_table, lookup-delete dest d r.owner_index)

drop_owned-FollowsOwners :
    (id : String) (owners : Map String) (r : Router)
    → FollowsOwners r
    → FollowsOwners (drop_owned id owners r)
unfolding drop_owned
drop_owned-FollowsOwners id [] r h = h
drop_owned-FollowsOwners id ((dest, owner) ∷ owners) r h = elim (Bool-cases (str_eq owner id)) [
  | inl e ↦
      rw (e, drop_owned) (drop_owned-FollowsOwners id owners _ (drop_route-FollowsOwners dest r h))
  | inr e ↦ rw (e, drop_owned) (drop_owned-FollowsOwners id owners r h)
]

pub remove_routing_for_peer-FollowsOwners :
    (id : String) (r : Router) → FollowsOwners r → FollowsOwners (remove_routing_for_peer id r)
unfolding remove_routing_for_peer
remove_routing_for_peer-FollowsOwners id r h =
    drop_owned-FollowsOwners id _ _ (drop_route-FollowsOwners id r h)

-- The sweep leaves an owner as it was, or removes it.
pub drop_owned_only :
    (id : String) (owners : Map String) (r : Router) (d : String)
    → (lookup d (drop_owned id owners r).owner_index ≡ none)
      ⊎ (lookup d (drop_owned id owners r).owner_index ≡ lookup d r.owner_index)
unfolding drop_owned drop_route
drop_owned_only id [] r d = inr refl
drop_owned_only id ((dest, owner) ∷ owners) r d = elim (Bool-cases (str_eq owner id)) [
  | inl e ↦
      rw (e, drop_owned)
        (ground (
          arith,
          lookup-delete dest d r.owner_index,
          drop_owned_only id owners (drop_route dest r) d,
        ))
  | inr e ↦ rw (e, drop_owned) (drop_owned_only id owners r d)
]

-- A destination that the swept list gives to the peer has no owner afterwards.
pub drop_owned_gone :
    (id : String) (owners : Map String) (r : Router) (d : String)
    → lookup d owners ≡ some id
    → lookup d (drop_owned id owners r).owner_index ≡ none
unfolding drop_owned drop_route lookup
drop_owned_gone id [] r d h = absurd (ground arith)
drop_owned_gone id ((dest, owner) ∷ owners) r d h = elim (Bool-cases (str_eq owner id)) [
  | inl e ↦
      rw (e, drop_owned)
        (ground (
          arith,
          lookup-delete dest d r.owner_index,
          drop_owned_only id owners (drop_route dest r) d,
          drop_owned_gone id owners (drop_route dest r) d,
        ))
  | inr e ↦ rw (e, drop_owned) (ground (arith, eq_refl id, drop_owned_gone id owners r d))
]

-- Some entry of the list gives the destination to the owner.
unfoldable pub listed : String → String → Map String → Bool
listed d id [] = false
listed d id ((dest, owner) ∷ owners) = (str_eq dest d && str_eq owner id) || listed d id owners

-- The sweep keeps the tables at a destination that no entry gives to the peer.
pub drop_owned_keeps :
    (id : String) (owners : Map String) (r : Router) (d : String)
    → listed d id owners ≡ false
    → lookup d (drop_owned id owners r).routing_table ≡ lookup d r.routing_table
unfolding drop_owned drop_route listed
drop_owned_keeps id [] r d h = refl
drop_owned_keeps id ((dest, owner) ∷ owners) r d h = elim (Bool-cases (str_eq owner id)) [
  | inl e ↦
      rw (e, drop_owned)
        (ground (
          arith,
          lookup-delete dest d r.routing_table,
          drop_owned_keeps id owners (drop_route dest r) d,
        ))
  | inr e ↦ rw (e, drop_owned) (ground (arith, drop_owned_keeps id owners r d))
]
