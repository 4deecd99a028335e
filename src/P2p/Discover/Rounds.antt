-- ===== src/P2p/Discover/Rounds.antt =====
-- pkg/p2p/manager.go over pkg/p2p/mesh.go: what a round of the discovery leaves in the mesh.
use Prim.Native.String.{String}
use text.Mathlib.Text.{◌==◌ as str_eq}
use cloudbridge_client.Prelude.{
  ◌≡◌, refl, Bool, true, false, Option, some, ok, List, [], ◌∷◌, if◌then◌else◌,
}
use cloudbridge_client.Prelude.Time.{Time}
use cloudbridge_client.Prelude.StringMap.{lookup, lookup-insert}
use cloudbridge_client.Prelude.Int.{pos}
use cloudbridge_client.Mesh.{Mesh, Peer, add_peer, unix_now}
use cloudbridge_client.Mesh.Owners.{FollowsOwners, update_routing_for_peer-FollowsOwners}
use cloudbridge_client.Api.Manager.{Manager}
use cloudbridge_client.Api.Client.{Decoder, Tries, do_request_with_retry}
use cloudbridge_client.P2p.{P2pManager}
use cloudbridge_client.P2p.Discover.{FoundPeer, Discovered, to_peer, add_found, discovery_tick}

-- Whether a discovered list has an entry with the id.
unfoldable pub is_found : String → List FoundPeer → Bool
is_found id [] = false
is_found id (p ∷ ps) = if str_eq p.peer_id id then true else is_found id ps

-- What the last entry with an id reports, seen now and with latency 0, or what there was before.
unfoldable pub last_found : Time → String → List FoundPeer → Option Peer → Option Peer
last_found now id [] before = before
last_found now id (p ∷ ps) before = last_found now id ps (
    if str_eq p.peer_id id
    then some (record {
      id = p.peer_id;
      public_key = p.public_key;
      endpoint = p.endpoint;
      allowed_ips = p.allowed_ips;
      last_seen = unix_now now;
      latency = pos 0;
      is_connected = p.is_online;
    })
    else before)

add_found-FollowsOwners :
    (now : Time) (ps : List FoundPeer) (mn : Mesh)
    → FollowsOwners mn.router
    → FollowsOwners (add_found now ps mn).router
unfolding add_found add_peer
add_found-FollowsOwners now [] mn h = h
add_found-FollowsOwners now (p ∷ ps) mn h =
    add_found-FollowsOwners now ps (add_peer (to_peer now p) mn)
      (update_routing_for_peer-FollowsOwners (to_peer now p) mn.router h)

lookup-add_found :
    (now : Time) (ps : List FoundPeer) (id : String) (mn : Mesh)
    → lookup id (add_found now ps mn).connected_peers
      ≡ last_found now id ps (lookup id mn.connected_peers)
unfolding add_found add_peer last_found to_peer
lookup-add_found now [] id mn = refl
lookup-add_found now (p ∷ ps) id mn =
    rw
      (
        lookup-add_found now ps id (add_peer (to_peer now p) mn),
        lookup-insert p.peer_id id (to_peer now p) mn.connected_peers,
      )
      refl

-- A round of the discovery that the relay answers with success, on a mesh whose routes follow its owners:
-- the routes follow the owners afterwards, a peer of the answer is as its last entry there reports it,
-- seen now and with latency 0, and any other peer is as before.
pub discovery_refreshes :
    {Pub : Type 0} (dec : Decoder Discovered) (w : Tries dec) (now : Time) (m : P2pManager Pub)
    (mn : Mesh) (api : Manager Pub) (found : Discovered) (id : String)
    → FollowsOwners mn.router
    → m.mesh ≡ some mn
    → m.api ≡ some api
    → (do_request_with_retry dec w).result ≡ ok found
    → found.success ≡ true
    → (mn' : Mesh) × ((discovery_tick dec w now m).mesh ≡ some mn')
      × FollowsOwners mn'.router
      × (lookup id mn'.connected_peers
          ≡ last_found now id found.peers (lookup id mn.connected_peers))
unfolding discovery_tick
discovery_refreshes dec w now m mn api found id follows there api_there answered good = (
  add_found now found.peers mn,
  rw (discovery_tick, api_there, answered, good, there) refl,
  add_found-FollowsOwners now found.peers mn follows,
  lookup-add_found now found.peers id mn,
)
