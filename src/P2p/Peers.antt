-- ===== src/P2p/Peers.antt =====
-- pkg/p2p/manager.go: connections to peers over ICE and QUIC, and what is sent on them.
use Prim.Native.String
use Prim.Native.String.{String}
use text.Mathlib.Text.{◌==◌ as str_eq}
use cloudbridge_client.Prelude.{
  ℕ, zero, suc, ◌+◌, ◌==◌, Bool, true, false, ◌||◌, is_some, Option, none, some, List, [], ◌∷◌, map,
  Result, ok, err, if◌then◌else◌,
}
use cloudbridge_client.Prelude.Int.{ℤ}
use cloudbridge_client.Prelude.Time.{Time}
use cloudbridge_client.Prelude.StringMap.{insert}
use cloudbridge_client.Api.Calls
use cloudbridge_client.Api.Calls.{CallError, IceCandidate}
use cloudbridge_client.Ice.{
  Agent, Call, panicked, returned, Candidate, Gathering, connected, fresh, closed,
  gather_candidates, add_remote_candidate, start_connectivity_checks, get_selected_candidate_pair,
  get_connection_state,
}
use cloudbridge_client.Quic.{create_stream}
use cloudbridge_client.P2p.{P2pManager, PeerConnection, Services, get_connected_peers}
use cloudbridge_client.P2p.Connect.{
  Error, not_gathered, not_checked, no_pair, no_selection, no_credentials, not_connected, no_api,
  not_signaled, no_candidates, no_stream, not_written,
}
pub mod Never

-- What one attempt to reach a peer meets: pion's answers, the agent as it is at each tick before the
-- timeout, quic-go's stream, what `ice.UnmarshalCandidate` makes of a text, and the clock.
pub record Attempt : Type 0 where
  pub gathering : Gathering
  pub added : Bool
  pub has_local : Bool
  pub sets_remote : Bool
  pub ticks : List Agent
  pub pair : Option (Option Candidate)
  pub opened : Option ℕ
  pub unmarshal : String → Option Candidate
  pub now : Time

-- `waitForConnection`, over the agent at each tick.
unfoldable pub wait_for_connection : List Agent → Option Error
wait_for_connection [] = some not_connected
wait_for_connection (a ∷ later) =
    let rest = wait_for_connection later in
    elim (get_connection_state a) [ connected ↦ none | fresh ↦ rest | closed ↦ rest ]

-- One candidate of `sendCandidatesToRelay`, and of `getRemoteCandidatesFromRelay`.
unfoldable pub to_api : Candidate → IceCandidate
to_api c = record {
  foundation = c.foundation;
  component = c.component;
  transport = c.network;
  priority = c.priority;
  address = c.address;
  port = c.port;
  kind = c.kind;
}

unfoldable pub candidate_text : (ℤ → String) → IceCandidate → String
candidate_text show c = String.◌++◌ "candidate:" (
    String.◌++◌ c.foundation (
      String.◌++◌ " " (
        String.◌++◌ (show c.component) (
          String.◌++◌ " " (
            String.◌++◌ c.transport (
              String.◌++◌ " " (
                String.◌++◌ (show c.priority) (
                  String.◌++◌ " " (
                    String.◌++◌ c.address (
                      String.◌++◌ " "
                        (String.◌++◌ (show c.port) (String.◌++◌ " typ " c.kind))))))))))))

-- The loop over the remote candidates in `ConnectToPeer`. An error is logged with the candidate's text,
-- which panics for nil.
unfoldable pub add_candidates : Bool → List (Option Candidate) → Agent → Call (Unit {0})
add_candidates added [] a = returned tt
add_candidates added (c ∷ cs) a =
    let rest = add_candidates added cs a in
    elim (add_remote_candidate added c a) [
      | panicked ↦ panicked
      | returned none ↦ rest
      | returned (some e) ↦ if is_some c then rest else panicked
    ]

module _ {Pub : Type 0} where
  module _ (s : Services) (t : Attempt) where
    -- `sendCandidatesToRelay` and `getRemoteCandidatesFromRelay`. A candidate that does not parse leaves
    -- its place nil.
    unfoldable pub send_candidates_to_relay : List Candidate → P2pManager Pub → Option Error
    send_candidates_to_relay cs m = elim m.api [
      | none ↦ some no_api
      | some api ↦
          elim (Calls.send_ice_signaling s.acknowledged s.net s.base_url api.token
            (Calls.signaling m.session_id m.peer_id (map to_api cs))) [
              | err e ↦ some (not_signaled e)
              | ok a ↦ none
            ]
    ]

    unfoldable pub get_remote_candidates_from_relay :
        String → P2pManager Pub → Result Error (List (Option Candidate))
    get_remote_candidates_from_relay target m = elim m.api [
      | none ↦ err no_api
      | some api ↦
          elim (Calls.get_remote_ice_candidates s.remote_candidates s.net s.base_url api.token
            m.session_id target) [
              | err e ↦ err (no_candidates e)
              | ok r ↦ ok (map (λ c. t.unmarshal (candidate_text s.format.show c)) r.candidates)
            ]
    ]

    -- `establishQUICConnection`: a stream of the QUIC connection that is there.
    unfoldable pub establish_quic_connection :
        String → Agent → P2pManager Pub → Call (Result Error PeerConnection) × P2pManager Pub
    establish_quic_connection target a m = elim (get_selected_candidate_pair t.pair a) [
      | err e ↦ (returned (err (no_pair e)), m)
      | ok none ↦ (returned (err no_selection), m)
      | ok (some remote) ↦ elim m.quic [
        | none ↦ (panicked, m)
        | some q ↦
            let (res, q') = create_stream (String.◌++◌ "peer_" target) t.opened q in
            elim res [
              | err e ↦ (returned (err (no_stream e)), record m { quic = some q' })
              | ok n ↦
                  let c : PeerConnection = record {
                    peer_id = target;
                    session_id = m.session_id;
                    stream = n;
                    connected_at = t.now;
                    last_seen = t.now;
                  } in
                  (
                    returned (ok c),
                    record m { quic = some q'; connections = insert target c m.connections },
                  )
            ]
      ]
    ]

    -- `ConnectToPeer` from its check of the credentials on.
    unfoldable pub check_and_establish :
        String → Agent → P2pManager Pub → Call (Result Error PeerConnection) × P2pManager Pub
    check_and_establish target a m =
        if str_eq m.remote_ufrag "" || str_eq m.remote_pwd ""
        then (returned (err no_credentials), m)
        else elim (start_connectivity_checks t.has_local t.sets_remote a) [
          | some e ↦ (returned (err (not_checked e)), m)
          | none ↦ elim (wait_for_connection t.ticks) [
            | some e ↦ (returned (err e), m)
            | none ↦ establish_quic_connection target a m
          ]
        ]

    -- `ConnectToPeer`; without an ICE agent its first call is one on nil.
    unfoldable pub connect_to_peer :
        String → P2pManager Pub → Call (Result Error PeerConnection) × P2pManager Pub
    connect_to_peer target m = elim m.ice [
      | none ↦ (panicked, m)
      | some a ↦ elim (gather_candidates t.gathering a) [
        | err e ↦ (returned (err (not_gathered e)), m)
        | ok cs ↦ elim (send_candidates_to_relay cs m) [
          | some e ↦ (returned (err e), m)
          | none ↦ elim (get_remote_candidates_from_relay target m) [
            | err e ↦ (returned (err e), m)
            | ok remote ↦ elim (add_candidates t.added remote a) [
              | panicked ↦ (panicked, m)
              | returned u ↦ check_and_establish target a m
            ]
          ]
        ]
      ]
    ]

    -- `Send`, with whether the write works.
    unfoldable pub send : Bool → String → P2pManager Pub → Call (Option Error) × P2pManager Pub
    send writes target m =
        let (res, m') = connect_to_peer target m in
        elim res [
          | panicked ↦ (panicked, m')
          | returned (err e) ↦ (returned (some e), m')
          | returned (ok c) ↦ (returned (if writes then none else some not_written), m')
        ]

  -- The loop of `Broadcast`, which counts the errors, over what each attempt meets.
  unfoldable pub send_all :
      Services
      → (String → Attempt)
      → (String → Bool)
      → List String
      → P2pManager Pub
      → Call ℕ × P2pManager Pub
  send_all s attempt writes [] m = (returned 0, m)
  send_all s attempt writes (id ∷ ids) m =
      let (sent, m') = send s (attempt id) (writes id) id m in
      let (rest, m'') = send_all s attempt writes ids m' in
      elim sent [
        | panicked ↦ (panicked, m')
        | returned none ↦ (rest, m'')
        | returned (some e) ↦ elim rest [
          | panicked ↦ (panicked, m'')
          | returned n ↦ (returned (suc n), m'')
        ]
      ]

  -- `Broadcast`: none if it succeeds, the number of errors otherwise.
  unfoldable pub broadcast :
      Services
      → (String → Attempt)
      → (String → Bool)
      → P2pManager Pub
      → Call (Option ℕ) × P2pManager Pub
  broadcast s attempt writes m =
      let (res, m') = send_all s attempt writes (get_connected_peers m) m in
      elim res [
        | panicked ↦ (panicked, m')
        | returned n ↦ (returned (if n == 0 then none else some n), m')
      ]
