-- ===== src/Tests/Meshes.antt =====
-- pkg/p2p: a mesh of two peers.
use Prim.Native.String.{String}
use cloudbridge_client.Prelude.{
  ◌≡◌, ◌≢◌, refl, arith, Bool, false, true, none, some, List, [], ◌∷◌, ok,
}
use cloudbridge_client.Prelude.Int.{pos}
use cloudbridge_client.Prelude.Time.{seconds}
use cloudbridge_client.Prelude.StringMap.{lookup}
use cloudbridge_client.Mesh.{Peer, Mesh, new_mesh, remove_peer, get_optimal_route}
use cloudbridge_client.Mesh.Owners.{FollowsOwners, listed}
use cloudbridge_client.Mesh.Routes.{NetLib, find_alternative_route, update_routing, covers}
use cloudbridge_client.Mesh.Removal.{
  Op, add, upsert, set_latency, remove, topology_round, apply_ops, apply_ops-FollowsOwners,
  remove_peer_forgets, reroute_outlives_removal,
}

abbrev peer : String → List String → Bool → Peer
peer id ips connected = record {
  id = id;
  public_key = "key";
  endpoint = "";
  allowed_ips = ips;
  last_seen = 0;
  latency = pos 20;
  is_connected = connected;
}

abbrev ops : List Op
ops =
    add 0 (peer "a" ("10.0.0.1" ∷ []) true)
    ∷ upsert 5 (peer "b" ("10.0.0.1" ∷ "10.0.0.2" ∷ []) true)
    ∷ set_latency "a" (pos 3)
    ∷ remove "a"
    ∷ topology_round 9 (seconds 60)
    ∷ []

apply_ops-FollowsOwners_example : FollowsOwners (apply_ops ops new_mesh).router
apply_ops-FollowsOwners_example = apply_ops-FollowsOwners ops

-- Peer a has gone away; peer b may carry its address too, but a owns the route.
abbrev two : Mesh
two = record {
  local_peer_id = "local-peer";
  connected_peers =
      ("a", peer "a" ("10.0.0.1" ∷ []) false) ∷ ("b", peer "b" ("10.0.0.1" ∷ []) true) ∷ [];
  router = record {
    routing_table = ("10.0.0.1", "a" ∷ []) ∷ ("a", "a" ∷ []) ∷ ("b", "b" ∷ []) ∷ [];
    latency_table = ("10.0.0.1", pos 20) ∷ ("a", pos 20) ∷ ("b", pos 20) ∷ [];
    owner_index = ("10.0.0.1", "a") ∷ ("a", "a") ∷ ("b", "b") ∷ [];
  };
}

two-FollowsOwners : FollowsOwners two.router
unfolding lookup
two-FollowsOwners d = ground arith

remove_peer_forgets_example :
    (lookup "10.0.0.1" (remove_peer "a" two).0.router.routing_table ≢ some ("a" ∷ []))
    × (lookup "a" (remove_peer "a" two).0.connected_peers ≡ none)
unfolding lookup
remove_peer_forgets_example =
    remove_peer_forgets "a" (peer "a" ("10.0.0.1" ∷ []) false) two "10.0.0.1" two-FollowsOwners refl

-- A net package that knows no address.
abbrev no_net : NetLib
no_net = record {
  Ip = Unit;
  Cidr = Unit;
  parse_ip = λ s. none;
  parse_cidr = λ s. none;
  cidr_contains = λ c a. false;
}

reroute_outlives_removal_example :
    (get_optimal_route "10.0.0.1" (remove_peer "b" (update_routing no_net two)).0 ≡ ok ("b" ∷ []))
    × (lookup "b" (remove_peer "b" (update_routing no_net two)).0.connected_peers ≡ none)
unfolding lookup listed find_alternative_route covers
reroute_outlives_removal_example =
    reroute_outlives_removal no_net two "10.0.0.1" "a" "b" (peer "a" ("10.0.0.1" ∷ []) false)
      (peer "b" ("10.0.0.1" ∷ []) true) refl refl refl refl refl refl refl
