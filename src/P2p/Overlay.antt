-- ===== src/P2p/Overlay.antt =====
-- pkg/p2p/manager.go: the L3 overlay, which is the WireGuard configuration and the mesh's own peer, and
-- the ICE credentials.
use Prim.Native.String
use Prim.Native.String.{String}
use text.Mathlib.Text.{◌==◌ as str_eq}
use cloudbridge_client.Prelude.{
  ℕ, zero, suc, Bool, true, false, ◌||◌, Option, none, some, List, [], ◌∷◌, Result, ok, err,
  if◌then◌else◌,
}
use cloudbridge_client.Prelude.Int.{pos}
use cloudbridge_client.Prelude.Time.{Time}
use cloudbridge_client.Mesh.{Peer, upsert_peer, unix_now}
use cloudbridge_client.Api.Manager.{Manager as ApiManager}
use cloudbridge_client.Api.Client.{Decoder}
use cloudbridge_client.Api.Calls
use cloudbridge_client.Api.Calls.{CallError}
use cloudbridge_client.Api.WireGuard
use cloudbridge_client.Api.WireGuard.{ConfigResponse, FetchError, Disk, save_wireguard_config}
use cloudbridge_client.P2p.Settings.{or_text}
use cloudbridge_client.P2p.{P2pManager, Services, Credentials}
pub mod Applied

pub data Error (dec : Decoder ConfigResponse) : Type 0 where
  no_client missing_fields no_mesh signaling_disabled no_api : Error dec
  not_obtained : FetchError dec → Error dec
  not_saved not_applied : WireGuard.Error → Error dec
  not_exchanged : CallError → Error dec
  denied : String → Error dec

-- The first `n` characters of a text.
unfoldable pub take_text : ℕ → String → String
take_text zero s = ""
take_text (suc n) String.[] = ""
take_text (suc n) (String.◌∷◌ c s) = String.◌∷◌ c (take_text n s)

-- `generateRandomString`: the encoded random bytes, or the clock where there are none.
unfoldable pub generate_random_string : ℕ → Option String → String → String
generate_random_string n none clock = take_text n clock
generate_random_string n (some encoded) clock = take_text n encoded

abbrev pub Answer : Services → Type 0 → Type 0 → Type 0
Answer s Pub A = Result (Error s.configs) A × P2pManager Pub

-- `configPath`, a path.
abbrev pub config_path : String
config_path = "/tmp/wg-client.conf"

module _ (s : Services) where
  -- The file of `ApplyWireGuardConfig` and the run of wg-quick. The argument of the client's
  -- `ApplyWireGuardConfig` is the path.
  unfoldable pub save_and_apply : Time → String → Disk → Option (Error s.configs) × Disk
  save_and_apply now config d =
      let (saved, d') = save_wireguard_config s.sys config config_path d in
      let (path, applied, d'') = WireGuard.apply_wireguard_config s.sys now config_path d' in
      elim saved [
        | some e ↦ (some (not_saved e), d')
        | none ↦ elim applied [ some e ↦ (some (not_applied e), d'') | none ↦ (none, d'') ]
      ]

module _ {Pub : Type 0} where
  -- The ids that are filled in before a request.
  unfoldable pub fill_ids : ApiManager Pub → P2pManager Pub → P2pManager Pub
  fill_ids api m = record m {
    tenant_id = or_text m.config.tenant_id m.tenant_id;
    peer_id = or_text api.peer_id m.peer_id;
    token = or_text api.token m.token;
  }

  unfoldable pub misses_ids : P2pManager Pub → Bool
  misses_ids m = str_eq m.tenant_id "" || (str_eq m.peer_id "" || str_eq m.token "")

  module _ (s : Services) where
    -- What the answer to the request stores.
    unfoldable pub store_config :
        Result (FetchError s.configs) ConfigResponse → P2pManager Pub → Answer s Pub ConfigResponse
    store_config (err e) m = (err (not_obtained e), m)
    store_config (ok c) m = (
      ok c,
      record m {
        wireguard_config = c.client_config;
        peer_ip = c.peer_ip;
        tenant_cidr = c.tenant_cidr;
      },
    )

    -- `GetWireGuardConfig`.
    unfoldable pub get_wireguard_config : P2pManager Pub → Answer s Pub ConfigResponse
    get_wireguard_config m = elim m.api [
      | none ↦ (err no_client, m)
      | some api ↦
          let m' = fill_ids api m in
          if misses_ids m'
          then (err missing_fields, m')
          else store_config
              (WireGuard.get_wireguard_config s.configs
                (s.ask_config m'.token m'.tenant_id m'.peer_id))
              m'
    ]

    -- `ApplyWireGuardConfig`.
    unfoldable pub apply_wireguard_config :
        Time → P2pManager Pub → Disk → Option (Error s.configs) × P2pManager Pub × Disk
    apply_wireguard_config now m d =
        let (res, m') = get_wireguard_config m in
        elim res [
          | err e ↦ (some e, m', d)
          | ok c ↦ let (failed, d') = save_and_apply s now c.client_config d in (failed, m', d')
        ]

    -- `UpdateMeshWithWireGuard`.
    unfoldable pub update_mesh_with_wireguard :
        Time → P2pManager Pub → Option (Error s.configs) × P2pManager Pub
    update_mesh_with_wireguard now m =
        let peer : Peer = record {
          id = m.peer_id;
          public_key = "";
          endpoint = m.peer_ip;
          allowed_ips = m.tenant_cidr ∷ [];
          last_seen = unix_now now;
          latency = pos 0;
          is_connected = true;
        } in
        elim m.mesh [
          | none ↦ (some no_mesh, m)
          | some mn ↦ (none, record m { mesh = some (upsert_peer now peer mn) })
        ]

    -- The answer to a request for credentials.
    unfoldable pub store_credentials :
        Result CallError Credentials → P2pManager Pub → Option (Error s.configs) × P2pManager Pub
    store_credentials (err e) m = (some (not_exchanged e), m)
    store_credentials (ok c) m =
        if c.success
        then (none, record m { remote_ufrag = c.ufrag; remote_pwd = c.pwd })
        else (some (denied c.error), m)

    -- `ExchangeICECredentials`, with the two texts that are generated.
    unfoldable pub exchange_ice_credentials :
        String → String → P2pManager Pub → Option (Error s.configs) × P2pManager Pub
    exchange_ice_credentials ufrag pwd m =
        if m.ice_signaling_enabled
        then elim m.api [
          | none ↦ (some no_api, m)
          | some api ↦
              store_credentials
                (Calls.exchange_ice_credentials s.credentials s.net s.base_url m.token m.tenant_id
                  m.peer_id (Calls.credentials ufrag pwd))
                (record m { local_ufrag = ufrag; local_pwd = pwd })
        ]
        else (some signaling_disabled, m)

    -- `GetICECredentials`.
    unfoldable pub get_ice_credentials :
        String → P2pManager Pub → Option (Error s.configs) × P2pManager Pub
    get_ice_credentials target m = elim m.api [
      | none ↦ (some no_api, m)
      | some api ↦
          store_credentials
            (Calls.get_ice_credentials s.credentials s.net s.base_url m.token m.tenant_id target) m
    ]
