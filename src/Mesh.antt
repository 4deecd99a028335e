-- ===== src/Mesh.antt =====
-- pkg/p2p/mesh.go: the mesh network, its peers and its router. The maps are association lists; the
-- loops over a map go in the order of the list, where Go's order is not fixed.
use Prim.Native.String.{String}
use Prim.Native.Char.{code}
use text.Mathlib.Text.{◌==◌ as str_eq}
use cloudbridge_client.Prelude.{
  ℕ, zero, suc, ◌+◌, ◌-◌, ◌*◌, ◌/◌, ◌==◌, Bool, true, false, ◌&&◌, ◌||◌, not, Option, none, some,
  is_some, List, [], ◌∷◌, Result, ok, err, if◌then◌else◌, ltb,
}
use cloudbridge_client.Prelude.Int.{ℤ, ltb_ℤ, leb_ℤ, pos}
use cloudbridge_client.Prelude.Time.{Time, Duration, second, since}
use cloudbridge_client.Prelude.StringMap.{Map, lookup, insert, delete}
pub mod Config
pub mod Owners
pub mod Routes
pub mod Removal

-- `Peer`, the fields that the mesh reads or writes. The latency is in milliseconds; `last_seen` is
-- a Unix time in seconds, not before the epoch.
pub record Peer : Type 0 where
  pub id : String
  pub public_key : String
  pub endpoint : String
  pub allowed_ips : List String
  pub last_seen : ℕ
  pub latency : ℤ
  pub is_connected : Bool

-- `MeshRouter`.
pub record Router : Type 0 where
  pub routing_table : Map (List String)
  pub latency_table : Map ℤ
  pub owner_index : Map String

-- `MeshNetwork`: the local peer, the connected peers and the router.
pub record Mesh : Type 0 where
  pub local_peer_id : String
  pub connected_peers : Map Peer
  pub router : Router

unfoldable pub new_mesh : Mesh
new_mesh = record {
  local_peer_id = "local-peer";
  connected_peers = [];
  router = record { routing_table = []; latency_table = []; owner_index = [] };
}

-- The three writes for one destination.
unfoldable pub set_route : String → String → ℤ → Router → Router
set_route dest owner latency r = record {
  routing_table = insert dest (owner ∷ []) r.routing_table;
  latency_table = insert dest latency r.latency_table;
  owner_index = insert dest owner r.owner_index;
}

-- The loop of `updateRoutingForPeer` over the allowed IPs.
unfoldable pub set_routes : String → ℤ → List String → Router → Router
set_routes owner latency [] r = r
set_routes owner latency (ip ∷ ips) r = set_routes owner latency ips (set_route ip owner latency r)

-- `updateRoutingForPeer`.
unfoldable pub update_routing_for_peer : Peer → Router → Router
update_routing_for_peer p r =
    set_routes p.id p.latency p.allowed_ips (set_route p.id p.id p.latency r)

-- The three deletions for one destination.
unfoldable pub drop_route : String → Router → Router
drop_route dest r = record {
  routing_table = delete dest r.routing_table;
  latency_table = delete dest r.latency_table;
  owner_index = delete dest r.owner_index;
}

-- The loop of `removeRoutingForPeer` over the owners.
unfoldable pub drop_owned : String → Map String → Router → Router
drop_owned id [] r = r
drop_owned id ((dest, owner) ∷ owners) r =
    drop_owned id owners (if str_eq owner id then drop_route dest r else r)

-- `removeRoutingForPeer`.
unfoldable pub remove_routing_for_peer : String → Router → Router
remove_routing_for_peer id r = let r' = drop_route id r in drop_owned id r'.owner_index r'

-- `AddPeer`.
unfoldable pub add_peer : Peer → Mesh → Mesh
add_peer p mn = record mn {
  connected_peers = insert p.id p mn.connected_peers;
  router = update_routing_for_peer p mn.router;
}

unfoldable pub set_local_peer_id : String → Mesh → Mesh
set_local_peer_id id mn = record mn { local_peer_id = id }

-- `time.Now().Unix()`; the Unix epoch in seconds since the zero time.
abbrev pub unix_epoch : ℕ
unix_epoch = 62135596800

abbrev pub unix_now : Time → ℕ
unix_now now = now / second - unix_epoch

-- `if len(peer.AllowedIPs) > 0 { p.AllowedIPs = peer.AllowedIPs }`
abbrev or_ips : List String → List String → List String
or_ips [] old = old
or_ips (ip ∷ ips) old = ip ∷ ips

-- The merge of `UpsertPeer`: only the fields that are set, the connection and the time.
unfoldable pub merge_peer : Time → Peer → Peer → Peer
merge_peer now peer p = record p {
  endpoint = if str_eq peer.endpoint "" then p.endpoint else peer.endpoint;
  public_key = if str_eq peer.public_key "" then p.public_key else peer.public_key;
  latency = if ltb_ℤ (pos 0) peer.latency then peer.latency else p.latency;
  allowed_ips = or_ips peer.allowed_ips p.allowed_ips;
  is_connected = peer.is_connected;
  last_seen = unix_now now;
}

-- `UpsertPeer`. The stored peer is updated in place, under the key it was found with.
unfoldable pub upsert_peer : Time → Peer → Mesh → Mesh
upsert_peer now peer mn = elim (lookup peer.id mn.connected_peers) [
  | some p ↦
      let p' = merge_peer now peer p in
      record mn {
        connected_peers = insert peer.id p' mn.connected_peers;
        router = update_routing_for_peer p' mn.router;
      }
  | none ↦
      let p' = record peer { last_seen = unix_now now } in
      record mn {
        connected_peers = insert peer.id p' mn.connected_peers;
        router = update_routing_for_peer p' mn.router;
      }
]

-- `UpdatePeerLatency`.
unfoldable pub update_peer_latency : String → ℤ → Mesh → Mesh
update_peer_latency id latency mn = elim (lookup id mn.connected_peers) [
  | none ↦ mn
  | some p ↦ record mn {
    connected_peers = insert id (record p { latency = latency }) mn.connected_peers;
    router = record (mn.router) { latency_table = insert id latency mn.router.latency_table };
  }
]

pub data Error : Type 0 where
  peer_not_found no_route no_latency : String → Error
  unsupported_routing invalid_routing invalid_encryption : String → Error
  bad_topology_interval bad_routing_interval bad_health_interval : Duration → Error

-- `RemovePeer`.
unfoldable pub remove_peer : String → Mesh → Mesh × Option Error
remove_peer id mn = elim (lookup id mn.connected_peers) [
  | none ↦ (mn, some (peer_not_found id))
  | some p ↦ (
    record mn {
      connected_peers = delete id mn.connected_peers;
      router = remove_routing_for_peer id mn.router;
    },
    none,
  )
]

-- `GetOptimalRoute`.
unfoldable pub get_optimal_route : String → Mesh → Result Error (List String)
get_optimal_route dest mn = elim (lookup dest mn.router.routing_table) [
  | some route ↦ ok route
  | none ↦ err (no_route dest)
]

-- `GetRouteLatency`.
unfoldable pub get_route_latency : String → Mesh → Result Error ℤ
get_route_latency dest mn = elim (lookup dest mn.router.latency_table) [
  | some latency ↦ ok latency
  | none ↦ err (no_latency dest)
]

-- `GetActivePeers`, over the entries.
unfoldable pub count_active : Map Peer → ℕ
count_active [] = 0
count_active ((id, p) ∷ m) = if p.is_connected then suc (count_active m) else count_active m

abbrev pub get_active_peers : Mesh → ℕ
get_active_peers mn = count_active mn.connected_peers

-- One round of the loop of `updateTopology`.
abbrev pub expire : Time → Duration → Peer → Peer
expire now stale p =
    if ltb_ℤ stale (since now ((unix_epoch + p.last_seen) * second)) && p.is_connected
    then record p { is_connected = false }
    else p

unfoldable pub expire_all : Time → Duration → Map Peer → Map Peer
expire_all now stale [] = []
expire_all now stale ((id, p) ∷ m) = (id, expire now stale p) ∷ expire_all now stale m

-- `updateTopology`, with `PeerStaleAfter`.
unfoldable pub update_topology : Time → Duration → Mesh → Mesh
update_topology now stale mn = record mn {
  connected_peers = expire_all now stale mn.connected_peers;
}
