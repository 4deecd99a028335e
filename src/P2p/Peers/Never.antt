-- ===== src/P2p/Peers/Never.antt =====
-- pkg/p2p/manager.go over pkg/ice/agent.go: how `ConnectToPeer`, `Send` and `Broadcast` end.
use Prim.Native.String.{String}
use text.Mathlib.Text.{◌==◌ as str_eq}
use cloudbridge_client.Prelude.{
  suc, ap, map, ◌==◌, if◌then◌else◌, ◌≡◌, ◌≢◌, refl, arith, ◌↔◌, ◌⊎◌, length, inl, inr, Bool, true,
  false, not, is_some, ◌||◌, Option, none, some, List, [], ◌∷◌, Result, ok, err, Option-cases,
  Bool-cases,
}
use cloudbridge_client.Ice.{
  Agent, Call, panicked, returned, Candidate, add_remote_candidate, gather_candidates,
  start_connectivity_checks,
}
use cloudbridge_client.Ice.States.{never_connected}
use cloudbridge_client.P2p.{
  P2pManager, PeerConnection, Services, get_connected_peers, get_active_peers,
}
use cloudbridge_client.P2p.Connect.{Error, not_connected, not_checked, no_credentials}
use cloudbridge_client.P2p.Peers.{
  Attempt, wait_for_connection, add_candidates, check_and_establish, connect_to_peer, send,
  send_all, broadcast, send_candidates_to_relay, get_remote_candidates_from_relay,
}

wait_times_out : (ticks : List Agent) → wait_for_connection ticks ≡ some not_connected
unfolding wait_for_connection
wait_times_out [] = refl
wait_times_out (a ∷ later) =
    let more = wait_times_out later in let no = never_connected a in ground arith

Ended-cases :
    (r : Call (Result Error PeerConnection))
    → (r ≡ panicked)
      ⊎ (((e : Error) × (r ≡ returned (err e))) ⊎ ((c : PeerConnection) × (r ≡ returned (ok c))))
Ended-cases panicked = inl refl
Ended-cases (returned (err e)) = inr (inl (e, refl))
Ended-cases (returned (ok c)) = inr (inr (c, refl))

abbrev no_peer : PeerConnection
no_peer = record { peer_id = ""; session_id = none; stream = 0; connected_at = 0; last_seen = 0 }

-- Whether a place of the list is nil.
unfoldable pub has_nil : List (Option Candidate) → Bool
has_nil [] = false
has_nil (c ∷ cs) = not (is_some c) || has_nil cs

add_candidates_panics_iff :
    (added : Bool) (cs : List (Option Candidate)) (a : Agent)
    → (add_candidates added cs a ≡ panicked) ↔ (has_nil cs ≡ true)
unfolding add_candidates add_remote_candidate has_nil
add_candidates_panics_iff added [] a = ground arith
add_candidates_panics_iff added (none ∷ cs) a = ground arith
add_candidates_panics_iff added (some c ∷ cs) a =
    let rest = add_candidates_panics_iff added cs a in ground arith

module _ {Pub : Type 0} (s : Services) (t : Attempt) where
  check_errs :
      (target : String) (a : Agent) (m : P2pManager Pub)
      → (e : Error) × (check_and_establish s t target a m ≡ (returned (err e), m))
  unfolding check_and_establish
  check_errs target a m =
      let late = wait_times_out t.ticks in
      elim (Bool-cases (str_eq m.remote_ufrag "" || str_eq m.remote_pwd "")) [
        | inl e ↦ (no_credentials, rw e refl)
        | inr e ↦ elim (Option-cases (start_connectivity_checks t.has_local t.sets_remote a)) [
          | inr (x, bad) ↦ (not_checked x, rw (e, bad) refl)
          | inl fine ↦ (not_connected, rw (e, fine, late) refl)
        ]
      ]

  -- Where an agent has gathered and the relay has answered, `ConnectToPeer` panics exactly if a remote
  -- candidate of the answer does not parse.
  pub unparsed_candidate_panics :
      (target : String) (m : P2pManager Pub) (a : Agent) (cs : List Candidate)
      (remote : List (Option Candidate))
      → m.ice ≡ some a
      → gather_candidates t.gathering a ≡ ok cs
      → send_candidates_to_relay s t cs m ≡ none
      → get_remote_candidates_from_relay s t target m ≡ ok remote
      → ((connect_to_peer s t target m).0 ≡ panicked) ↔ (has_nil remote ≡ true)
  unfolding connect_to_peer
  unparsed_candidate_panics target m a cs remote there gathered sent answered =
      let (e, ends) = check_errs target a m in
      let panics = add_candidates_panics_iff t.added remote a in ground arith

  -- `ConnectToPeer` never gives a connection, and leaves the manager as it is.
  pub never_connects :
      (target : String) (m : P2pManager Pub) (c : PeerConnection)
      → ((connect_to_peer s t target m).0 ≢ returned (ok c))
        × ((connect_to_peer s t target m).1 ≡ m)
  unfolding connect_to_peer
  never_connects target m c = elim (Option-cases m.ice) [
    | inl no_agent ↦ (λ h. ground arith, rw no_agent refl)
    | inr (a, there) ↦ let (e, ends) = check_errs target a m in (λ h. ground arith, ground arith)
  ]

  unchanged : (target : String) (m : P2pManager Pub) → (connect_to_peer s t target m).1 ≡ m
  unchanged target m = (never_connects target m no_peer).1

length-map : {A B : Type 0} (f : A → B) (xs : List A) → length (map f xs) ≡ length xs
length-map f [] = refl
length-map f (x ∷ xs) = ap suc (length-map f xs)

length-connected :
    {Pub : Type 0} (m : P2pManager Pub) → length (get_connected_peers m) ≡ get_active_peers m
unfolding get_connected_peers get_active_peers
length-connected m = length-map (λ (id, c). id) m.connections

module _ {Pub : Type 0} (s : Services) where
  send_ends :
      (t : Attempt) (writes : Bool) (id : String) (m : P2pManager Pub)
      → (send s t writes id m ≡ (panicked, m))
        ⊎ ((e : Error) × (send s t writes id m ≡ (returned (some e), m)))
  unfolding send
  send_ends t writes id m = elim (Ended-cases (connect_to_peer s t id m).0) [
    | inl e ↦ inl (rw (e, send, unchanged s t id m) refl)
    | inr (inl (x, e)) ↦ inr (x, rw (e, send, unchanged s t id m) refl)
    | inr (inr (c, e)) ↦ absurd ((never_connects s t id m c).0 e)
  ]

  module _ (attempt : String → Attempt) (writes : String → Bool) where
    sends_fail :
        (ids : List String) (m : P2pManager Pub)
        → (((send_all s attempt writes ids m).0 ≡ panicked)
            ⊎ ((send_all s attempt writes ids m).0 ≡ returned (length ids)))
          × ((send_all s attempt writes ids m).1 ≡ m)
    unfolding send_all
    sends_fail [] m = (inr refl, refl)
    sends_fail (id ∷ ids) m = elim (send_ends (attempt id) (writes id) id m) [
      | inl e ↦ rw (e, send_all, e) (inl refl, refl)
      | inr (x, e) ↦
          let (rest, kept) = sends_fail ids m in
          elim rest [
            | inl bad ↦ rw (e, send_all, e, bad, e, kept) (inl refl, refl)
            | inr all' ↦ rw (e, send_all, e, all', e, kept) (inr refl, refl)
          ]
    ]

    -- `Broadcast` panics or counts an error for every peer, and leaves the manager as it is.
    pub broadcast_fails :
        (m : P2pManager Pub)
        → (((broadcast s attempt writes m).0 ≡ panicked)
            ⊎ ((broadcast s attempt writes m).0
                ≡ returned (if get_active_peers m == 0 then none else some (get_active_peers m))))
          × ((broadcast s attempt writes m).1 ≡ m)
    unfolding broadcast
    broadcast_fails m =
        let (res, kept) = sends_fail (get_connected_peers m) m in
        elim res [
          | inl bad ↦ rw (bad, broadcast, kept) (inl refl, refl)
          | inr all' ↦ rw (all', broadcast, kept, length-connected m) (inr refl, refl)
        ]
