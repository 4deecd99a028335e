-- ===== src/RelayClient/Peering.antt =====
-- pkg/relay/client.go over pkg/p2p/manager.go: the start of the P2P manager after a login, and the
-- reaction to a changed configuration.
use Prim.Native.String.{String}
use text.Mathlib.Text.{◌==◌ as str_eq}
use cloudbridge_client.Prelude.{
  ◌≡◌, ◌≢◌, refl, ap, ◌∙◌, arith, inl, inr, Bool, not, ◌&&◌, ◌||◌, Option, none, some, List, [],
  ◌∷◌, ok, err, Option-cases, if◌then◌else◌,
}
use cloudbridge_client.Prelude.Int.{pos}
use cloudbridge_client.Prelude.Time.{Duration, seconds}
use cloudbridge_client.Auth as Auth
use cloudbridge_client.Auth.{JwtLib, Token, AuthManager}
use cloudbridge_client.Auth.Keys.{Outside}
use cloudbridge_client.Api.Manager.{Relay}
use cloudbridge_client.Api.WireGuard.{Disk}
use cloudbridge_client.Configuration
use cloudbridge_client.Configuration.Watcher.{same_flag}
use cloudbridge_client.Configuration.Addresses.{Endpoints, effective_p2p_quic_port}
use cloudbridge_client.P2p.Settings.{
  Parser, P2pConfig, MeshConfig, apply_client_p2p_defaults, fill_mesh_defaults, apply_to,
  manager_config, extract_p2p_config_from_token, fill_defaults, or_default,
}
use cloudbridge_client.P2p.Settings.Extracted.{
  extracted_settings, extracted_mesh_never_starts, filled_again,
}
use cloudbridge_client.P2p.Settings.Defaults.{manager_config_interval}
use cloudbridge_client.P2p.Life.Outcome.{no_mesh_no_start}
use cloudbridge_client.P2p.{
  P2pManager, Services, new_manager_with_api, set_relay_quic_endpoint, set_ice_signaling_enabled,
}
use cloudbridge_client.P2p.Life as Life
use cloudbridge_client.P2p.Life.{StartTry}

-- The parts of the client's configuration that `initializeP2PManager` reads.
pub record PeerSettings : Type 0 where
  pub heartbeat_interval : Duration
  pub heartbeat_timeout : Duration
  pub route_monitoring : Bool
  pub signaling_enabled : Bool
  pub endpoints : Endpoints

pub data PeerError (r : Relay) : Type 0 where
  not_extracted : Auth.Error → PeerError r
  not_started : Life.Error r → PeerError r

module _ (jwt : JwtLib) (out : Outside jwt.Pub) (r : Relay) where
  -- The manager that `initializeP2PManager` makes. The API's configuration has no interval.
  unfoldable pub make_manager :
      Parser
      → Services
      → PeerSettings
      → P2pConfig
      → AuthManager jwt.Pub
      → String
      → P2pManager jwt.Pub
  make_manager p s c extracted am token =
      let config =
        apply_client_p2p_defaults p (some extracted) c.heartbeat_interval c.heartbeat_timeout in
      set_ice_signaling_enabled c.signaling_enabled (
        set_relay_quic_endpoint s.format c.endpoints.host (effective_p2p_quic_port c.endpoints)
          (new_manager_with_api p config (pos 0) c.route_monitoring am token))

  -- `initializeP2PManager`: the error, and the manager where one was made.
  unfoldable pub initialize_p2p_manager :
      Parser
      → Services
      → StartTry
      → PeerSettings
      → Token
      → AuthManager jwt.Pub
      → String
      → Disk
      → Option (PeerError r) × Option (P2pManager jwt.Pub) × Disk
  initialize_p2p_manager p s w c t am token d = elim (extract_p2p_config_from_token p t) [
    | err e ↦ (some (not_extracted e), none, d)
    | ok extracted ↦
        let (failed, m, d') =
          Life.start jwt out r p s w (make_manager p s c extracted am token) d in
        elim failed [ some e ↦ (some (not_started e), some m, d') | none ↦ (none, some m, d') ]
  ]

  refilled :
      (p : Parser) (t : Token) (c : P2pConfig) (mesh : MeshConfig)
      → extract_p2p_config_from_token p t ≡ ok c
      → c.mesh_config ≡ some mesh
      → apply_to (fill_mesh_defaults p) (apply_to (fill_mesh_defaults p) c.mesh_config) ≡ some mesh
  unfolding fill_defaults
  refilled p t c mesh read there =
      let once : apply_to (fill_mesh_defaults p) c.mesh_config ≡ c.mesh_config =
        ap (λ x. x.mesh_config) (filled_again p t c read) in
      ap (apply_to (fill_mesh_defaults p)) once ∙ once ∙ there

  -- `initializeP2PManager` fails for every token with a mesh part.
  pub mesh_login_fails :
      (p : Parser) (s : Services) (w : StartTry) (c : PeerSettings) (t : Token)
      (am : AuthManager jwt.Pub) (token : String) (d : Disk) (extracted : P2pConfig)
      (mesh : MeshConfig)
      → extract_p2p_config_from_token p t ≡ ok extracted
      → extracted.mesh_config ≡ some mesh
      → (initialize_p2p_manager p s w c t am token d).0 ≢ none
  unfolding initialize_p2p_manager make_manager apply_client_p2p_defaults new_manager_with_api
      set_relay_quic_endpoint set_ice_signaling_enabled manager_config fill_defaults
  mesh_login_fails p s w c t am token d extracted mesh read there done' =
      let m = make_manager p s c extracted am token in
      let stops =
        no_mesh_no_start jwt out r p s w d m mesh refl (refilled p t extracted mesh read there)
          (extracted_mesh_never_starts p t extracted mesh read there) in
      elim (Option-cases (Life.start jwt out r p s w m d).0) [
        | inl e ↦ stops e
        | inr (x, e) ↦ absurd (ground arith)
      ]

  -- The heartbeat of the manager that the client makes from a token has the client's interval where that is
  -- above 0, and 30 s otherwise.
  client_interval :
      (p : Parser) (s : Services) (c : PeerSettings) (t : Token) (am : AuthManager jwt.Pub)
      (token : String) (extracted : P2pConfig)
      → extract_p2p_config_from_token p t ≡ ok extracted
      → (make_manager p s c extracted am token).config.heartbeat_interval
        ≡ or_default (seconds 30) c.heartbeat_interval
  unfolding make_manager apply_client_p2p_defaults new_manager_with_api set_relay_quic_endpoint
      set_ice_signaling_enabled fill_defaults
  client_interval p s c t am token extracted read =
      let (k, i, pe, wh, interval, timeout) = extracted_settings p t extracted read in
      let config : P2pConfig = fill_defaults p (record extracted {
        heartbeat_interval = or_default extracted.heartbeat_interval c.heartbeat_interval;
        heartbeat_timeout = or_default extracted.heartbeat_timeout c.heartbeat_timeout;
      }) in
      manager_config_interval p (pos 0) (some config) ∙ rw interval (ground arith)

-- What `handleConfigChange` starts in the background.
pub data Task : Type 0 where
  reconnect : Task
  authenticate : String → Task

-- `handleConfigChange`, on the configurations that it compares: the token, and what it starts.
module _ {Rest : Type 0} where
  unfoldable pub tls_changed : Configuration.Config Rest → Configuration.Config Rest → Bool
  tls_changed old new =
      not (same_flag old.relay.tls.verify_cert new.relay.tls.verify_cert)
      || (not (same_flag old.relay.tls.enabled new.relay.tls.enabled)
          || not (str_eq old.relay.tls.ca_cert new.relay.tls.ca_cert))

  unfoldable pub handle_config_change :
      Bool
      → Configuration.Config Rest
      → Configuration.Config Rest
      → String
      → String × Configuration.Config Rest × List Task
  handle_config_change connected old new token =
      let secret_changed = not (str_eq old.auth.secret new.auth.secret) in
      let again : List Task =
        if secret_changed && connected then authenticate new.auth.secret ∷ [] else [] in
      (
        if secret_changed then new.auth.secret else token,
        new,
        if tls_changed old new && connected then reconnect ∷ again else again,
      )
