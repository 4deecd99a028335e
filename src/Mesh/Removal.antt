-- ===== src/Mesh/Removal.antt =====
-- pkg/p2p/mesh.go: what `RemovePeer` takes from the router, and what lists of calls leave in it.
use Prim.Native.String.{String}
use text.Mathlib.Text.{◌==◌ as str_eq}
use text.Mathlib.TextEquality.{eq_iff}
use cloudbridge_client.Prelude.{
  ◌≡◌, ◌≢◌, refl, ◌∙◌, arith, false, none, some, List, [], ◌∷◌, inl, inr, Option-cases, ok,
}
use cloudbridge_client.Prelude.Int.{ℤ}
use cloudbridge_client.Prelude.Time.{Time, Duration}
use cloudbridge_client.Prelude.StringMap.{Map, lookup, delete, lookup-delete, lookup-delete_self}
use cloudbridge_client.Mesh.{
  Peer, Router, Mesh, new_mesh, drop_route, remove_routing_for_peer, add_peer, upsert_peer,
  update_peer_latency, remove_peer, update_topology, get_optimal_route,
}
use cloudbridge_client.Mesh.Owners.{
  FollowsOwners, update_routing_for_peer-FollowsOwners, remove_routing_for_peer-FollowsOwners,
  drop_owned_only, drop_owned_gone, drop_owned_keeps, listed,
}
use cloudbridge_client.Mesh.Routes.{
  NetLib, find_alternative_route, reroute, reroute_all, update_routing,
}

-- The calls on the peers, and the topology's round.
pub data Op : Type 0 where
  add upsert : Time → Peer → Op
  set_latency : String → ℤ → Op
  remove : String → Op
  topology_round : Time → Duration → Op

unfoldable pub apply_op : Op → Mesh → Mesh
apply_op (add now p) mn = add_peer p mn
apply_op (upsert now p) mn = upsert_peer now p mn
apply_op (set_latency id latency) mn = update_peer_latency id latency mn
apply_op (remove id) mn = (remove_peer id mn).0
apply_op (topology_round now stale) mn = update_topology now stale mn

unfoldable pub apply_ops : List Op → Mesh → Mesh
apply_ops [] mn = mn
apply_ops (op ∷ ops) mn = apply_ops ops (apply_op op mn)

apply_op-FollowsOwners :
    (op : Op) (mn : Mesh) → FollowsOwners mn.router → FollowsOwners (apply_op op mn).router
unfolding apply_op add_peer upsert_peer update_peer_latency remove_peer update_topology
apply_op-FollowsOwners (add now p) mn h = update_routing_for_peer-FollowsOwners p mn.router h
apply_op-FollowsOwners (upsert now p) mn h = elim (Option-cases (lookup p.id mn.connected_peers)) [
  | inl miss ↦ rw (miss, upsert_peer) (update_routing_for_peer-FollowsOwners _ mn.router h)
  | inr (q, hit) ↦ rw (hit, upsert_peer) (update_routing_for_peer-FollowsOwners _ mn.router h)
]
apply_op-FollowsOwners (set_latency id latency) mn h =
    elim (Option-cases (lookup id mn.connected_peers)) [
      | inl miss ↦ rw (miss, update_peer_latency) h
      | inr (q, hit) ↦ rw (hit, update_peer_latency) h
    ]
apply_op-FollowsOwners (remove id) mn h = elim (Option-cases (lookup id mn.connected_peers)) [
  | inl miss ↦ rw (miss, apply_op, remove_peer) h
  | inr (q, hit) ↦
      rw (hit, apply_op, remove_peer) (remove_routing_for_peer-FollowsOwners id mn.router h)
]
apply_op-FollowsOwners (topology_round now stale) mn h = h

apply_ops_from :
    (ops : List Op) (mn : Mesh) → FollowsOwners mn.router → FollowsOwners (apply_ops ops mn).router
unfolding apply_ops
apply_ops_from [] mn h = h
apply_ops_from (op ∷ ops) mn h = apply_ops_from ops _ (apply_op-FollowsOwners op mn h)

-- After any calls that add, update and remove peers, and any topology rounds, from a new mesh: every
-- destination has a route exactly if it has an owner, and the route is to that owner.
pub apply_ops-FollowsOwners : (ops : List Op) → FollowsOwners (apply_ops ops new_mesh).router
unfolding new_mesh lookup
apply_ops-FollowsOwners ops = apply_ops_from ops new_mesh (λ d. refl)

owner_gone :
    (id : String) (r : Router) (d : String)
    → lookup d (remove_routing_for_peer id r).owner_index ≢ some id
unfolding remove_routing_for_peer
owner_gone id r d h = ground (
  arith,
  drop_owned_only id (drop_route id r).owner_index (drop_route id r) d,
  drop_owned_gone id (drop_route id r).owner_index (drop_route id r) d,
)

-- In a mesh whose routes follow the owners, after the removal of a known peer no destination at all
-- is routed to it, and the peer is not connected any more.
pub remove_peer_forgets :
    (id : String) (p : Peer) (mn : Mesh) (d : String)
    → FollowsOwners mn.router
    → lookup id mn.connected_peers ≡ some p
    → (lookup d (remove_peer id mn).0.router.routing_table ≢ some (id ∷ []))
      × (lookup id (remove_peer id mn).0.connected_peers ≡ none)
unfolding remove_peer
remove_peer_forgets id p mn d h hit =
    rw (hit, remove_peer)
      (
        λ e. ground (
          arith,
          remove_routing_for_peer-FollowsOwners id mn.router h d,
          owner_gone id mn.router d,
        ),
        lookup-delete_self id mn.connected_peers,
      )

listed-delete :
    (d id k : String) (owners : Map String)
    → listed d id owners ≡ false
    → listed d id (delete k owners) ≡ false
unfolding listed delete
listed-delete d id k [] h = refl
listed-delete d id k ((dest, owner) ∷ owners) h = ground (arith, listed-delete d id k owners)

-- The removal of a known peer keeps the route of every other destination that no owner entry gives
-- to the peer.
remove_peer_keeps :
    (id : String) (p : Peer) (mn : Mesh) (d : String)
    → lookup id mn.connected_peers ≡ some p
    → str_eq id d ≡ false
    → listed d id mn.router.owner_index ≡ false
    → get_optimal_route d (remove_peer id mn).0 ≡ get_optimal_route d mn
unfolding remove_peer get_optimal_route remove_routing_for_peer drop_route
remove_peer_keeps id p mn d hit other unlisted =
    rw (hit, remove_peer)
      (ground (
        arith,
        listed-delete d id id mn.router.owner_index unlisted,
        drop_owned_keeps id (delete id mn.router.owner_index) (drop_route id mn.router) d,
        lookup-delete id d mn.router.routing_table,
      ))

module _ (net : NetLib) where
  lookup-reroute_all :
      (peers : Map Peer) (d : String) (route : List String) (m : Map (List String))
      → lookup d m ≡ some route
      → lookup d (reroute_all net peers m) ≡ some (reroute net peers d route)
  unfolding lookup reroute_all
  lookup-reroute_all peers d route [] h = absurd (ground arith)
  lookup-reroute_all peers d route ((dest, r) ∷ m) h =
      ground (arith, eq_iff dest d, lookup-reroute_all peers d route m)

  -- A destination whose hop is disconnected is rerouted to another peer that covers it; if no owner
  -- entry gives it to that peer, the later removal of the peer leaves the route to the removed peer.
  pub reroute_outlives_removal :
      (mn : Mesh) (d hop q : String) (p p' : Peer)
      → lookup d mn.router.routing_table ≡ some (hop ∷ [])
      → lookup hop mn.connected_peers ≡ some p
      → p.is_connected ≡ false
      → find_alternative_route net d hop mn.connected_peers ≡ some (q ∷ [])
      → lookup q mn.connected_peers ≡ some p'
      → str_eq q d ≡ false
      → listed d q mn.router.owner_index ≡ false
      → (get_optimal_route d (remove_peer q (update_routing net mn)).0 ≡ ok (q ∷ []))
        × (lookup q (remove_peer q (update_routing net mn)).0.connected_peers ≡ none)
  unfolding update_routing get_optimal_route reroute remove_peer
  reroute_outlives_removal mn d hop q p p' route here down alt there other unlisted =
      let rerouted : lookup d (update_routing net mn).router.routing_table ≡ some (q ∷ []) =
        ground (
          arith,
          lookup-reroute_all mn.connected_peers d (hop ∷ []) mn.router.routing_table route,
        ) in
      (
        remove_peer_keeps q p' (update_routing net mn) d there other unlisted
            ∙ rw (rerouted, get_optimal_route) refl,
        rw (there, remove_peer) (lookup-delete_self q mn.connected_peers),
      )
