-- ===== src/Api/Manager/Lifecycle.antt =====
-- pkg/api/manager.go: `Start` and `Stop`. `Start` gives up its lock between its check and its end, so
-- both halves are functions of their own.
use cloudbridge_client.Prelude.{
  ℕ, ◌+◌, ◌≡◌, ◌≢◌, arith, inl, inr, true, false, Option, none, some, List, length, ◌∷◌, Result, ok,
  err, Result-cases, if◌then◌else◌,
}
use cloudbridge_client.Prelude.Time.{Time}
use cloudbridge_client.Auth.{JwtLib}
use cloudbridge_client.Auth.Keys.{Outside}
use cloudbridge_client.Auth.Validate.{validate_token}
use cloudbridge_client.Auth.Extract.{extract_quic_config}
use cloudbridge_client.Api.Client.{do_request_with_retry}
use cloudbridge_client.Api.Manager.{
  check_token, open_route, close_route, Registration, Registered, Relay, Manager, RegisterError,
  called, store_registration, send_registration, registration_of, register_peer,
}

pub data StartError (r : Relay) : Type 0 where
  already_running : StartError r
  not_registered : RegisterError r → StartError r

-- The channels that are closed when a new one takes the place of the current one.
abbrev pub closing : Option ℕ → List ℕ → List ℕ
closing none closed = closed
closing (some c) closed = c ∷ closed

module _ (jwt : JwtLib) (out : Outside jwt.Pub) (r : Relay) where
  -- `Start` after its registration: a session, the heartbeat, a new stop channel.
  unfoldable pub start_loops : Time → Manager jwt.Pub → Manager jwt.Pub
  start_loops now m =
      let m' = if m.route_monitoring then called (open_route (some now)) m else m in
      record m' {
        session_id = some now;
        loops = m.loops + 1;
        hb_stop = some m.channels;
        closed = closing m.hb_stop m.closed;
        channels = m.channels + 1;
        running = true;
      }

  -- `Start` after its check, which the lock does not cover.
  unfoldable pub start_checked :
      Time → Manager jwt.Pub → Result (StartError r) (Unit {0}) × Manager jwt.Pub
  start_checked now m =
      let (res, m') = register_peer jwt out r now m in
      elim res [ err e ↦ (err (not_registered e), m') | ok u ↦ (ok tt, start_loops now m') ]

  -- `Start`.
  unfoldable pub start : Time → Manager jwt.Pub → Result (StartError r) (Unit {0}) × Manager jwt.Pub
  start now m = if m.running then (err already_running, m) else start_checked now m

  -- `Stop`'s part that stands under `m.sessionID != ""`.
  unfoldable pub close_session : Manager jwt.Pub → Manager jwt.Pub
  close_session m = elim m.session_id [
    | none ↦ m
    | some t ↦
        let m' = record m { hb_stop = none; closed = closing m.hb_stop m.closed } in
        if m.route_monitoring then called (close_route (some t)) m' else m'
  ]

  -- `Stop`.
  unfoldable pub stop : Manager jwt.Pub → Manager jwt.Pub
  stop m = if m.running then record (close_session m) { cancelled = true; running = false } else m

  -- What a call of the manager may do to the fields that decide over its life.
  abbrev pub SameLife : Manager jwt.Pub → Manager jwt.Pub → Type 0
  SameLife m m' =
      (m'.running ≡ m.running)
      × (m'.cancelled ≡ m.cancelled)
      × (m'.hb_stop ≡ m.hb_stop)
      × (m'.closed ≡ m.closed)
      × (m'.channels ≡ m.channels)
      × (m'.loops ≡ m.loops)

  SameLife-send_registration :
      (q : Registration) (m : Manager jwt.Pub) → SameLife m (send_registration jwt out r q m).1
  unfolding send_registration store_registration
  SameLife-send_registration q m = ground arith

  -- Registering leaves the manager's life as it is.
  pub SameLife-register_peer :
      (now : Time) (m : Manager jwt.Pub) → SameLife m (register_peer jwt out r now m).1
  unfolding register_peer
  SameLife-register_peer now m = grind (arith, SameLife-send_registration)

  -- `Start` of a manager that does not run, where the registration succeeds, starts one heartbeat loop
  -- and leaves the manager running with a session.
  pub start_runs :
      (now : Time) (m : Manager jwt.Pub)
      → m.running ≡ false
      → (register_peer jwt out r now m).0 ≡ ok tt
      → ((start now m).0 ≡ ok tt)
        × ((start now m).1.running ≡ true)
        × ((start now m).1.session_id ≡ some now)
        × ((start now m).1.loops ≡ m.loops + 1)
  unfolding start start_checked start_loops
  start_runs now m idle good =
      let (run, c, h, cl, ch, loops) = SameLife-register_peer now m in ground arith

  -- `Start` of a manager that does not run, where the registration fails, fails with its error, and
  -- starts nothing.
  start_refused :
      (now : Time) (m : Manager jwt.Pub) (e : RegisterError r)
      → m.running ≡ false
      → (register_peer jwt out r now m).0 ≡ err e
      → ((start now m).0 ≡ err (not_registered e)) × SameLife m (start now m).1
  unfolding start start_checked
  start_refused now m e idle bad =
      let (run, c, h, cl, ch, loops) = SameLife-register_peer now m in ground arith

  -- A relay that answers no registration once the manager's context is done, as the HTTP client does.
  abbrev pub DoneFails : Type 0
  DoneFails =
      (n : ℕ) (q : Registration) (a : Registered)
      → (do_request_with_retry r.registered (r.on_register true n q)).result ≢ ok a

  done_not_registered :
      (q : Registration) (m : Manager jwt.Pub)
      → DoneFails
      → m.cancelled ≡ true
      → (send_registration jwt out r q m).0 ≢ ok tt
  unfolding send_registration store_registration
  done_not_registered q m fails done' h =
      elim (Result-cases
        (do_request_with_retry r.registered (r.on_register m.cancelled (length m.log) q)).result) [
          | inl (a, e) ↦ fails (length m.log) q a (rw done' at e)
          | inr (x, e) ↦ absurd (ground arith)
        ]

  done_not_started :
      (now : Time) (m : Manager jwt.Pub)
      → DoneFails
      → m.cancelled ≡ true
      → (register_peer jwt out r now m).0 ≢ ok tt
  unfolding register_peer
  done_not_started now m fails done' h =
      elim (Result-cases (validate_token jwt out m.token m.auth).0) [
        | inr (e, bad) ↦ absurd (ground arith)
        | inl (t, good) ↦ elim (Result-cases (extract_quic_config (r.generated_key now) t)) [
          | inr (e, bad) ↦ absurd (ground arith)
          | inl (q, found) ↦
              done_not_registered (registration_of jwt out r now q)
                (called check_token (record m { auth = (validate_token jwt out m.token m.auth).1 }))
                fails done' (ground arith)
        ]
      ]

  -- After `Stop` has stopped a manager, `Start` never succeeds again.
  pub stopped_for_good :
      (now : Time) (m : Manager jwt.Pub)
      → DoneFails
      → m.running ≡ true
      → (start now (stop m)).0 ≢ ok tt
  unfolding start start_checked stop
  stopped_for_good now m fails runs h =
      let not_started = done_not_started now (stop m) fails (ground arith) in
      elim (Result-cases (register_peer jwt out r now (stop m)).0) [
        | inl (u, e) ↦ not_started e
        | inr (x, e) ↦ absurd (ground arith)
      ]

  -- A manager that was stopped does not start, and stays stopped.
  pub stopped_stays :
      (now : Time) (m : Manager jwt.Pub)
      → DoneFails
      → m.cancelled ≡ true
      → m.running ≡ false
      → (e : StartError r) × ((start now m).0 ≡ err e)
        × ((start now m).1.cancelled ≡ true)
        × ((start now m).1.running ≡ false)
  unfolding start start_checked
  stopped_stays now m fails done' idle =
      let not_started = done_not_started now m fails done' in
      let (run, cancel, h, cl, ch, loops) = SameLife-register_peer now m in
      elim (Result-cases (register_peer jwt out r now m).0) [
        | inl (tt, e) ↦ absurd (not_started e)
        | inr (x, e) ↦ (not_registered x, ground arith, ground arith, ground arith)
      ]
