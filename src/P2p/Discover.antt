-- ===== src/P2p/Discover.antt =====
-- pkg/p2p/manager.go: the rounds of the discovery, which fill the mesh, and the heartbeat of the
-- manager.
use Prim.Native.String.{String}
use text.Mathlib.Text.{◌==◌ as str_eq}
use cloudbridge_client.Prelude.{
  Bool, true, ◌||◌, Option, none, some, List, [], ◌∷◌, Result, ok, err, if◌then◌else◌,
}
use cloudbridge_client.Prelude.Int.{pos, leb_ℤ}
use cloudbridge_client.Prelude.Time.{Time, Duration, seconds}
use cloudbridge_client.Mesh.{Peer, Mesh, add_peer, unix_now}
use cloudbridge_client.Api.Manager.{Manager as ApiManager}
use cloudbridge_client.Api.Client.{Decoder, Tries, Failure, do_request_with_retry}
use cloudbridge_client.Api.Calls
use cloudbridge_client.Api.Calls.{CallError}
use cloudbridge_client.P2p.Settings.{P2pConfig, or_default, or_text}
use cloudbridge_client.P2p.{P2pManager, Services, Acknowledged}
use cloudbridge_client.P2p.Overlay.{fill_ids, misses_ids}
pub mod Rounds
pub mod Beats

-- `api.Peer` and `DiscoverResponse`, the fields that are read.
pub record FoundPeer : Type 0 where
  pub peer_id : String
  pub public_key : String
  pub endpoint : String
  pub allowed_ips : List String
  pub is_online : Bool

pub record Discovered : Type 0 where
  pub success : Bool
  pub peers : List FoundPeer

-- The peer that a round of `startPeerDiscovery` adds to the mesh.
unfoldable pub to_peer : Time → FoundPeer → Peer
to_peer now p = record {
  id = p.peer_id;
  public_key = p.public_key;
  endpoint = p.endpoint;
  allowed_ips = p.allowed_ips;
  last_seen = unix_now now;
  latency = pos 0;
  is_connected = p.is_online;
}

unfoldable pub add_found : Time → List FoundPeer → Mesh → Mesh
add_found now [] mn = mn
add_found now (p ∷ ps) mn = add_found now ps (add_peer (to_peer now p) mn)

pub data BeatError : Type 0 where
  no_api missing_fields : BeatError
  not_sent : CallError → BeatError
  denied : String → BeatError

-- `if !resp.Success`
abbrev beat_result : Result CallError Acknowledged → Option BeatError
beat_result (err e) = some (not_sent e)
beat_result (ok a) = if a.success then none else some (denied a.error)

module _ {Pub : Type 0} where
  -- One tick of `startPeerDiscovery`, with what meets `DiscoverPeers`; an error is only logged.
  abbrev with_found : Time → Discovered → P2pManager Pub → P2pManager Pub
  with_found now found m =
      if found.success
      then elim m.mesh [
        | none ↦ m
        | some mn ↦ record m { mesh = some (add_found now found.peers mn) }
      ]
      else m

  unfoldable pub discovery_tick :
      (dec : Decoder Discovered) → Tries dec → Time → P2pManager Pub → P2pManager Pub
  discovery_tick dec w now m = elim m.api [
    | none ↦ m
    | some api ↦ elim (do_request_with_retry dec w).result [
      | err e ↦ m
      | ok found ↦ with_found now found m
    ]
  ]

  -- `startHeartbeat`, up to its goroutine.
  unfoldable pub start_heartbeat : P2pManager Pub → P2pManager Pub
  start_heartbeat m =
      let interval = or_default (seconds 30) m.config.heartbeat_interval in
      record m {
        config = record (m.config) { heartbeat_interval = interval };
        ticker = some interval;
      }

  -- The fields that `sendHeartbeat` fills in.
  unfoldable pub fill_session : ApiManager Pub → P2pManager Pub → P2pManager Pub
  fill_session api m = record (fill_ids api m) {
    relay_session_id = or_text api.relay_session_id m.relay_session_id;
  }

  -- `sendHeartbeat`.
  unfoldable pub send_heartbeat : Services → P2pManager Pub → Option BeatError × P2pManager Pub
  send_heartbeat s m = elim m.api [
    | none ↦ (some no_api, m)
    | some api ↦
        let m' = fill_session api m in
        if misses_ids m' then (some missing_fields, m') else (
          beat_result (
              Calls.send_heartbeat s.acknowledged s.net s.base_url s.config_base_url m'.tenant_id
                m'.peer_id m'.token (Calls.beat "active" m'.relay_session_id)),
          m',
        )
  ]
