-- ===== src/P2p/Connect.antt =====
-- pkg/p2p/manager.go: the ICE agent and the QUIC connection of the manager, the login at the relay's
-- QUIC endpoint, and connections to peers.
use Prim.Native.String
use Prim.Native.String.{String}
use text.Mathlib.Text.{◌==◌ as str_eq}
use cloudbridge_client.Prelude.{
  ℕ, zero, suc, ◌==◌, Bool, true, false, ◌&&◌, ◌||◌, not, is_some, Option, none, some, List, [],
  ◌∷◌, map, Result, ok, err, if◌then◌else◌,
}
use cloudbridge_client.Prelude.Int.{ℤ}
use cloudbridge_client.Prelude.Time.{Time}
use cloudbridge_client.Prelude.StringMap.{insert}
use cloudbridge_client.Api.Calls
use cloudbridge_client.Api.Calls.{CallError, IceCandidate}
use cloudbridge_client.Ice
use cloudbridge_client.Ice.{
  Agent, Call, panicked, returned, Candidate, Gathering, ConnectionState, connected, fresh, closed,
  new_ice_agent, gather_candidates, add_remote_candidate, start_connectivity_checks,
  get_selected_candidate_pair, get_connection_state,
}
use cloudbridge_client.Quic
use cloudbridge_client.Quic.{Quic, new_quic_connection, set_client_tls_config, create_stream}
use cloudbridge_client.P2p.Settings.{NetworkConfig}
use cloudbridge_client.P2p.{
  P2pManager, PeerConnection, Services, Format, derive_relay_addr, RemoteCandidates,
  get_connected_peers,
}
pub mod Relays

pub data Error : Type 0 where
  not_gathered not_added not_checked no_pair : Ice.Error → Error
  no_selection no_credentials not_connected no_api no_token : Error
  not_signaled no_candidates : CallError → Error
  no_stream not_dialled : Quic.Error → Error
  auth_not_sent auth_timeout auth_not_read not_written : Error
  auth_refused : String → Error

-- The servers of `initializeICE`.
abbrev configured_servers : Option NetworkConfig → List String → List String
configured_servers none servers = servers
configured_servers (some n) servers = elim n.stun_servers [ [] ↦ servers | x ∷ xs ↦ x ∷ xs ]

unfoldable pub is_local : String → Bool
is_local host = str_eq host "127.0.0.1" || str_eq host "localhost"

-- What the login at the relay meets: the connection, the stream, whether the token is written, and the
-- answer: none for a timeout, `some none` for an error.
pub record RelayTry : Type 0 where
  pub dialled : Option ℕ
  pub opened : Option ℕ
  pub writes : Bool
  pub reply : Option (Option String)

-- The TLS configuration of `connectToRelayServer` for a loopback address.
unfoldable pub is_loopback : Format → String → Bool
is_loopback f addr = elim (f.split_host addr) [ none ↦ false | some host ↦ is_local host ]

unfoldable pub relay_tls : Format → String → Quic → Quic
relay_tls f addr q =
    if is_loopback f addr
    then set_client_tls_config
        (record {
          server_name = "";
          insecure_skip_verify = true;
          next_protos = "cloudbridge-p2p" ∷ "h3" ∷ [];
          certificates = 0;
        })
        q
    else q

-- The exchange on the stream.
unfoldable pub auth_exchange : RelayTry → Option Error
auth_exchange t =
    if t.writes
    then elim t.reply [
      | none ↦ some auth_timeout
      | some none ↦ some auth_not_read
      | some (some text) ↦ if str_eq text "AUTH_OK" then none else some (auth_refused text)
    ]
    else some auth_not_sent

module _ {Pub : Type 0} where
  -- `initializeICE`.
  unfoldable pub stun_servers : P2pManager Pub → List String
  stun_servers m =
      let servers =
        configured_servers m.config.network_config
          ("stun:127.0.0.1:19302" ∷ "stun:stun.l.google.com:19302" ∷ []) in
      if not (str_eq m.relay_host "") && not (is_local m.relay_host)
      then String.◌++◌ "stun:" (String.◌++◌ m.relay_host ":19302") ∷ servers
      else servers

  unfoldable pub initialize_ice :
      (String → Bool) → Bool → Gathering → P2pManager Pub → Option Ice.Error × P2pManager Pub
  initialize_ice parses created g m =
      let (failed, a) = Ice.start parses created (new_ice_agent (stun_servers m) []) in
      let m' = record m { ice = some a } in
      elim failed [
        | some e ↦ (some e, m')
        | none ↦ elim (gather_candidates g a) [ err e ↦ (some e, m') | ok cs ↦ (none, m') ]
      ]

  -- `initializeQUIC`.
  unfoldable pub initialize_quic : Bool → P2pManager Pub → Option Quic.Error × P2pManager Pub
  initialize_quic bound m =
      let (failed, q) = Quic.listen bound new_quic_connection in
      (failed, record m { quic = some q })

  -- `connectToRelayServer`, on the manager's QUIC connection.
  unfoldable pub connect_to_relay_server :
      Format → RelayTry → P2pManager Pub → Quic → Option Error × Quic
  connect_to_relay_server f t m q = elim m.api [
    | none ↦ (some no_api, q)
    | some api ↦
        if str_eq api.token ""
        then (some no_token, q)
        else (let (failed, q') = Quic.connect t.dialled (relay_tls f (derive_relay_addr f m) q) in
            elim failed [
              | some e ↦ (some (not_dialled e), q')
              | none ↦
                  let (res, q'') = create_stream "auth" t.opened q' in
                  elim res [ err e ↦ (some (no_stream e), q'') | ok n ↦ (auth_exchange t, q'') ]
            ])
  ]
