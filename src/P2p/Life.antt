-- ===== src/P2p/Life.antt =====
-- pkg/p2p/manager.go: `Start` and `Stop`, over the API manager, ICE, QUIC, the overlay and the mesh.
use Prim.Native.String.{String}
use cloudbridge_client.Prelude.{
  ℕ, Bool, true, false, is_some, Option, none, some, List, [], ◌∷◌, Result, ok, err, map,
  if◌then◌else◌,
}
use cloudbridge_client.Prelude.Time.{Time}
use cloudbridge_client.Auth.{JwtLib}
use cloudbridge_client.Auth.Keys.{Outside}
use cloudbridge_client.Api.Manager.{Relay, Manager as ApiManager}
use cloudbridge_client.Api.Manager.Lifecycle
use cloudbridge_client.Api.Manager.Lifecycle.{StartError}
use cloudbridge_client.Api.WireGuard.{Disk}
use cloudbridge_client.Ice
use cloudbridge_client.Ice.{Gathering}
use cloudbridge_client.Quic
use cloudbridge_client.Mesh
use cloudbridge_client.Mesh.{new_mesh}
use cloudbridge_client.Mesh.Config
use cloudbridge_client.P2p.Settings.{Parser, MeshConfig, fill_mesh_defaults, mesh_settings}
use cloudbridge_client.P2p.{P2pManager, Services, PeerConnection}
use cloudbridge_client.P2p.Connect.{
  RelayTry, initialize_ice, initialize_quic, connect_to_relay_server,
}
use cloudbridge_client.P2p.Overlay.{
  apply_wireguard_config, update_mesh_with_wireguard, exchange_ice_credentials,
}
use cloudbridge_client.P2p.Discover.{start_heartbeat}
pub mod Outcome
pub mod Stopped

-- What one `Start` meets outside the API: pion, the listener, the login at the relay, and the generated
-- credentials.
pub record StartTry : Type 0 where
  pub now : Time
  pub parses : String → Bool
  pub created : Bool
  pub gathering : Gathering
  pub bound : Bool
  pub login : RelayTry
  pub ufrag : String
  pub pwd : String

pub data Error (r : Relay) : Type 0 where
  api_failed : StartError r → Error r
  mesh_failed : Mesh.Error → Error r

module _ {Pub : Type 0} where
  -- The login of `Start`, on the QUIC connection that is there; an error is only logged.
  unfoldable pub log_in : Services → RelayTry → P2pManager Pub → P2pManager Pub
  log_in s t m = elim m.quic [
    | none ↦ m
    | some q ↦ record m { quic = some (connect_to_relay_server s.format t m q).1 }
  ]

  unfoldable pub exchange : Services → StartTry → P2pManager Pub → P2pManager Pub
  exchange s w m =
      if m.ice_signaling_enabled then (exchange_ice_credentials s w.ufrag w.pwd m).1 else m

  -- The WireGuard part of `Start`.
  unfoldable pub set_up_overlay : Services → Time → P2pManager Pub → Disk → P2pManager Pub × Disk
  set_up_overlay s now m d =
      let (failed, m', d') = apply_wireguard_config s now m d in
      if is_some m.api
      then elim failed [ some e ↦ (m', d') | none ↦ ((update_mesh_with_wireguard s now m').1, d') ]
      else (m, d)

  -- The mesh part: `NewMeshNetwork` fills the defaults of the configuration that it is given.
  unfoldable pub create_mesh : Parser → P2pManager Pub → Option Mesh.Error × P2pManager Pub
  create_mesh p m = elim m.config.mesh_config [
    | none ↦ (none, m)
    | some c ↦ (
      Config.start (mesh_settings p c),
      record m {
        config = record (m.config) { mesh_config = some (fill_mesh_defaults p c) };
        mesh = some new_mesh;
      },
    )
  ]

  -- The steps of the data plane, up to the mesh: no error of theirs ends `Start`.
  unfoldable pub bring_up : Services → StartTry → P2pManager Pub → Disk → P2pManager Pub × Disk
  bring_up s w m d =
      let m1 = (initialize_ice w.parses w.created w.gathering m).1 in
      let m2 = (initialize_quic w.bound m1).1 in
      set_up_overlay s w.now (exchange s w (log_in s w.login m2)) d

  unfoldable pub data_plane :
      Parser
      → Services
      → StartTry
      → P2pManager Pub
      → Disk
      → Option Mesh.Error × P2pManager Pub × Disk
  data_plane p s w m d =
      let (m1, d') = bring_up s w m d in
      let (failed, m2) = create_mesh p m1 in
      elim failed [ some e ↦ (some e, m2, d') | none ↦ (none, record m2 { monitoring = true }, d') ]

  -- The end of `Start`.
  unfoldable pub finish_start : P2pManager Pub → P2pManager Pub
  finish_start m = record (start_heartbeat (record m { discovering = is_some m.api })) {
    is_connected = true;
  }

module _ (jwt : JwtLib) (out : Outside jwt.Pub) (r : Relay) where
  -- The start of the API manager, and what is copied from it.
  unfoldable pub start_api : Time → P2pManager jwt.Pub → Option (StartError r) × P2pManager jwt.Pub
  start_api now m = elim m.api [
    | none ↦ (none, m)
    | some a ↦
        let (res, a') = Lifecycle.start jwt out r now a in
        elim res [
          | err e ↦ (some e, record m { api = some a' })
          | ok u ↦ (
            none,
            record m {
              api = some a';
              peer_id = a'.peer_id;
              tenant_id = m.config.tenant_id;
              token = a'.token;
              relay_session_id = a'.relay_session_id;
            },
          )
        ]
  ]

  -- `Start`.
  unfoldable pub start :
      Parser
      → Services
      → StartTry
      → P2pManager jwt.Pub
      → Disk
      → Option (Error r) × P2pManager jwt.Pub × Disk
  start p s w m d =
      let (refused, m1) = start_api w.now (record m { session_id = some w.now }) in
      let (failed, m2, d') = data_plane p s w m1 d in
      elim refused [
        | some e ↦ (some (api_failed e), m1, d)
        | none ↦ if m1.skip_data_plane then (none, finish_start m1, d) else elim failed [
          | some e ↦ (some (mesh_failed e), m2, d')
          | none ↦ (none, finish_start m2, d')
        ]
      ]

  abbrev on_some : {A : Type 0} → (A → A) → Option A → Option A
  on_some f none = none
  on_some f (some a) = some (f a)

  -- `Stop`, with pion's answer to `Close`, and the streams of the peers that it closes.
  unfoldable pub stop : Bool → P2pManager jwt.Pub → List ℕ × P2pManager jwt.Pub
  stop ice_closes m = (
    map (λ (id, c). c.stream) m.connections,
    record m {
      ticker = none;
      cancelled = true;
      api = on_some (Lifecycle.stop jwt out r) m.api;
      connections = [];
      quic = on_some Quic.close m.quic;
      ice = on_some (λ a. (Ice.stop ice_closes a).1) m.ice;
      is_connected = false;
    },
  )
