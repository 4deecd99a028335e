-- ===== src/P2p/Life/Outcome.antt =====
-- pkg/p2p/manager.go: how `Start` ends.
use Prim.Native.String.{String}
use cloudbridge_client.Prelude.{
  ◌≡◌, ◌≢◌, refl, ap, ◌∙◌, arith, ℕ, inl, inr, Bool, true, false, none, some, ok, Option-cases,
}
use cloudbridge_client.Prelude.Time.{Time, Duration}
use cloudbridge_client.Auth.{JwtLib, Token, AuthManager}
use cloudbridge_client.Auth.Keys.{Outside}
use cloudbridge_client.Api.Manager.{Relay, Manager, Registration, Registered}
use cloudbridge_client.Api.Client.{do_request_with_retry}
use cloudbridge_client.Api.Manager.Lifecycle
use cloudbridge_client.Api.WireGuard.{Disk}
use cloudbridge_client.Mesh.Config
use cloudbridge_client.P2p.Settings.{
  Parser, MeshConfig, P2pConfig, mesh_settings, extract_p2p_config_from_token, manager_config,
}
use cloudbridge_client.P2p.Settings.Extracted.{extracted_mesh_never_starts, filled_again}
use cloudbridge_client.P2p.{P2pManager, Services, new_manager_with_api}
use cloudbridge_client.P2p.Connect.{initialize_ice, initialize_quic}
use cloudbridge_client.P2p.Overlay.{
  apply_wireguard_config, get_wireguard_config, store_config, update_mesh_with_wireguard,
  exchange_ice_credentials, store_credentials, fill_ids,
}
use cloudbridge_client.P2p.Life.{
  StartTry, log_in, exchange, set_up_overlay, create_mesh, bring_up, data_plane, start_api, start,
}

module _ {Pub : Type 0} (s : Services) (w : StartTry) where
  ice_keeps :
      (m : P2pManager Pub) → (initialize_ice w.parses w.created w.gathering m).1.config ≡ m.config
  unfolding initialize_ice
  ice_keeps m = ground arith

  login_keeps : (m : P2pManager Pub) → (log_in s w.login m).config ≡ m.config
  unfolding log_in
  login_keeps m = ground arith

  exchange_keeps : (m : P2pManager Pub) → (exchange s w m).config ≡ m.config
  unfolding exchange exchange_ice_credentials store_credentials
  exchange_keeps m = ground arith

  get_keeps : (m : P2pManager Pub) → (get_wireguard_config s m).1.config ≡ m.config
  unfolding get_wireguard_config store_config fill_ids
  get_keeps m = ground arith

  apply_keeps :
      (now : Time) (m : P2pManager Pub) (d : Disk)
      → (apply_wireguard_config s now m d).1.config ≡ m.config
  unfolding apply_wireguard_config
  apply_keeps now m d = let got = get_keeps m in ground arith

  update_keeps :
      (now : Time) (m : P2pManager Pub) → (update_mesh_with_wireguard s now m).1.config ≡ m.config
  unfolding update_mesh_with_wireguard
  update_keeps now m = ground arith

  overlay_keeps :
      (now : Time) (m : P2pManager Pub) (d : Disk) → (set_up_overlay s now m d).0.config ≡ m.config
  unfolding set_up_overlay
  overlay_keeps now m d =
      let applied = apply_keeps now m d in
      let updated = update_keeps now (apply_wireguard_config s now m d).1 in ground arith

  bring_up_keeps : (m : P2pManager Pub) (d : Disk) → (bring_up s w m d).0.config ≡ m.config
  unfolding bring_up initialize_quic
  bring_up_keeps m d =
      let m1 = (initialize_ice w.parses w.created w.gathering m).1 in
      let m2 = (initialize_quic w.bound m1).1 in
      let m3 = log_in s w.login m2 in
      overlay_keeps w.now (exchange s w m3) d ∙ exchange_keeps m3 ∙ login_keeps m2 ∙ ice_keeps m

  mesh_fails :
      (p : Parser) (m : P2pManager Pub) (d : Disk) (c : MeshConfig)
      → m.config.mesh_config ≡ some c
      → Config.start (mesh_settings p c) ≢ none
      → (data_plane p s w m d).0 ≢ none
  unfolding data_plane create_mesh
  mesh_fails p m d c there fails h =
      let up : (bring_up s w m d).0.config.mesh_config ≡ some c =
        ap (λ x. x.mesh_config) (bring_up_keeps m d) ∙ there in
      elim (Option-cases (Config.start (mesh_settings p c))) [
        | inl e ↦ fails e
        | inr (x, e) ↦ absurd (ground arith)
      ]

module _ (jwt : JwtLib) (out : Outside jwt.Pub) (r : Relay) where
  api_keeps :
      (now : Time) (m : P2pManager jwt.Pub)
      → ((start_api jwt out r now m).1.config ≡ m.config)
        × ((start_api jwt out r now m).1.skip_data_plane ≡ m.skip_data_plane)
  unfolding start_api
  api_keeps now m = (ground arith, ground arith)

  -- What a `Start` that succeeds has behind it: the start of the API manager and, unless it is skipped, the
  -- data plane.
  start_needs :
      (p : Parser) (s : Services) (w : StartTry) (d : Disk) (m : P2pManager jwt.Pub)
      → (start jwt out r p s w m d).0 ≡ none
      → m.skip_data_plane ≡ false
      → ((start_api jwt out r w.now (record m { session_id = some w.now })).0 ≡ none)
        × ((data_plane p s w
              (start_api jwt out r w.now (record m { session_id = some w.now })).1
              d).0
            ≡ none)
  unfolding start
  start_needs p s w d m h plane =
      let m0 : P2pManager jwt.Pub = record m { session_id = some w.now } in
      let (config, same) = api_keeps w.now m0 in (ground arith, ground arith)

  -- A `Start` with the data plane fails where the mesh does not start on the manager's configuration.
  pub no_mesh_no_start :
      (p : Parser) (s : Services) (w : StartTry) (d : Disk) (m : P2pManager jwt.Pub)
      (mesh : MeshConfig)
      → m.skip_data_plane ≡ false
      → m.config.mesh_config ≡ some mesh
      → Config.start (mesh_settings p mesh) ≢ none
      → (start jwt out r p s w m d).0 ≢ none
  no_mesh_no_start p s w d m mesh plane there fails started =
      let m0 : P2pManager jwt.Pub = record m { session_id = some w.now } in
      let (config, same) = api_keeps w.now m0 in
      mesh_fails s w p (start_api jwt out r w.now m0).1 d mesh
        (ap (λ x. x.mesh_config) config ∙ there) fails (start_needs p s w d m started plane).1

  -- A manager made from a token with a mesh part never starts with its data plane, whatever the network
  -- answers.
  token_mesh_never_starts :
      (p : Parser) (s : Services) (w : StartTry) (d : Disk) (t : Token) (c : P2pConfig)
      (mesh : MeshConfig) (interval : Duration) (routes : Bool) (am : AuthManager jwt.Pub)
      (token : String)
      → extract_p2p_config_from_token p t ≡ ok c
      → c.mesh_config ≡ some mesh
      → (start jwt out r p s w (new_manager_with_api p (some c) interval routes am token) d).0
        ≢ none
  unfolding new_manager_with_api manager_config
  token_mesh_never_starts p s w d t c mesh interval routes am token read there =
      no_mesh_no_start p s w d (new_manager_with_api p (some c) interval routes am token) mesh refl
        (ap (λ x. x.mesh_config) (filled_again p t c read) ∙ there)
        (extracted_mesh_never_starts p t c mesh read there)

  -- What a registration that succeeds was answered.
  abbrev pub Answer : Manager jwt.Pub → Registered → Type 0
  Answer a given =
      (n : ℕ) × (q : Registration) × ((do_request_with_retry r.registered
          (r.on_register a.cancelled n q)).result
        ≡ ok given)
      × (given.success ≡ true)
