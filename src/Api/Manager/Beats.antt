-- ===== src/Api/Manager/Beats.antt =====
-- pkg/api/manager.go: `sendHeartbeat` and the ticks of `startHeartbeat`, with the registration after
-- three failures.
use Prim.Native.String.{String}
use text.Mathlib.Text.{◌==◌ as str_eq}
use cloudbridge_client.Prelude.{
  ℕ, ◌+◌, ◌/◌, ◌%◌, ◌<◌, ◌≡◌, ◌∙◌, arith, Bool, true, false, ◌||◌, none, some, List, [], ◌∷◌,
  Result, ok, err, Result-cases, ◌≢◌, leb, length, if◌then◌else◌, inl, inr,
}
use cloudbridge_client.Prelude.Time.{Time}
use cloudbridge_client.Auth.{JwtLib, Token, AuthManager}
use cloudbridge_client.Auth.Validate.{validate_token}
use cloudbridge_client.Auth.Extract.{extract_quic_config, QuicConfig}
use cloudbridge_client.Auth.Keys.{Outside}
use cloudbridge_client.Api.Client.{Failure, do_request_with_retry}
use cloudbridge_client.Api.Manager.{
  Call, Registration, check_token, register, status, open_route, close_route, Relay, Status,
  Manager, called, store_registration, send_registration, registration_of, register_peer,
}

pub data BeatError (r : Relay) : Type 0 where
  not_registered : BeatError r
  not_updated : Failure r.reported → BeatError r
  denied : String → BeatError r

module _ (jwt : JwtLib) (out : Outside jwt.Pub) (r : Relay) where
  -- `sendHeartbeat`: no request without the two ids.
  unfoldable pub send_heartbeat :
      Manager jwt.Pub → Result (BeatError r) (Unit {0}) × Manager jwt.Pub
  send_heartbeat m =
      if str_eq m.peer_id "" || str_eq m.relay_session_id ""
      then (err not_registered, m)
      else let m' = called (status m.peer_id m.relay_session_id) m in
        elim (do_request_with_retry r.reported
          (r.on_status m.cancelled (length m.log) m.peer_id m.relay_session_id)).result [
            | err e ↦ (err (not_updated e), m')
            | ok s ↦ if s.success then (ok tt, m') else (err (denied s.error), m')
          ]

  unfoldable pub close_old : Manager jwt.Pub → Manager jwt.Pub
  close_old m = elim m.session_id [
    | none ↦ m
    | some t ↦ if m.route_monitoring then called (close_route (some t)) m else m
  ]

  unfoldable pub open_new : Time → Manager jwt.Pub → Manager jwt.Pub
  open_new now m =
      let m' = record m { session_id = some now } in
      if m.route_monitoring then called (open_route (some now)) m' else m'

  -- The branch of `startHeartbeat` after three failures.
  unfoldable pub re_register : Time → Manager jwt.Pub → Manager jwt.Pub
  re_register now m =
      let (res, m') = register_peer jwt out r now (close_old m) in
      elim res [ err e ↦ m' | ok u ↦ open_new now m' ]

  -- One tick, with the consecutive failures before it and after it.
  unfoldable pub tick : Time → ℕ → Manager jwt.Pub → ℕ × Manager jwt.Pub
  tick now failures m =
      let (res, m') = send_heartbeat m in
      elim res [
        | ok u ↦ (0, m')
        | err e ↦ if leb 3 (failures + 1) then (0, re_register now m') else (failures + 1, m')
      ]

  -- `startHeartbeat` over the times of its ticks; it ends when the context is done.
  unfoldable pub start_heartbeat : List Time → ℕ → Manager jwt.Pub → ℕ × Manager jwt.Pub
  start_heartbeat [] failures m = (failures, m)
  start_heartbeat (now ∷ later) failures m =
      let (failures', m') = tick now failures m in
      let rest = start_heartbeat later failures' m' in if m.cancelled then (failures, m) else rest

  -- The calls of `RegisterPeer` in a log.
  abbrev pub registers : List Call → ℕ
  registers [] = 0
  registers (check_token ∷ log) = registers log
  registers (register q ∷ log) = registers log + 1
  registers (status p s ∷ log) = registers log
  registers (open_route s ∷ log) = registers log
  registers (close_route s ∷ log) = registers log

  -- A token in the HMAC mode that is accepted, and from which the configuration can be read at any time.
  pub record Accepted (a : AuthManager jwt.Pub) (token : String) : Type 0 where
    pub mode : str_eq a.config.kind "jwt" ≡ true
    pub claims : Token
    pub accepted : (validate_token jwt out token a).0 ≡ ok claims
    pub config :
        (now : Time) → (q : QuicConfig) × (extract_quic_config (r.generated_key now) claims ≡ ok q)

  -- What one part of the manager's work leaves as it is, and the registrations it adds.
  abbrev pub Adds : ℕ → Manager jwt.Pub → Manager jwt.Pub → Type 0
  Adds n m m' =
      (m'.cancelled ≡ m.cancelled)
      × (m'.auth ≡ m.auth)
      × (m'.token ≡ m.token)
      × (registers m'.log ≡ registers m.log + n)

  Adds-send_registration :
      (req : Registration) (m : Manager jwt.Pub) → Adds 1 m (send_registration jwt out r req m).1
  unfolding send_registration store_registration
  Adds-send_registration req m = ground arith

  same_auth :
      (a : AuthManager jwt.Pub) (token : String)
      → str_eq a.config.kind "jwt" ≡ true
      → (validate_token jwt out token a).1 ≡ a
  unfolding validate_token
  same_auth a token mode = ground arith

  Adds-register_peer :
      (now : Time) (m : Manager jwt.Pub)
      → Accepted m.auth m.token
      → Adds 1 m (register_peer jwt out r now m).1
  unfolding register_peer
  Adds-register_peer now m ok' =
      let (q, found) = ok'.config now in
      let m' : Manager jwt.Pub =
        called check_token (record m { auth = (validate_token jwt out m.token m.auth).1 }) in
      let good = ok'.accepted in
      let same = same_auth m.auth m.token ok'.mode in
      let (context, auth, token, count) =
        Adds-send_registration (registration_of jwt out r now q) m' in
      ground arith

  Adds-close_old : (m : Manager jwt.Pub) → Adds 0 m (close_old m)
  unfolding close_old
  Adds-close_old m = ground arith

  Adds-open_new : (now : Time) (m : Manager jwt.Pub) → Adds 0 m (open_new now m)
  unfolding open_new
  Adds-open_new now m = ground arith

  Accepted-cast :
      (m m' : Manager jwt.Pub) (n : ℕ)
      → Adds n m m'
      → Accepted m.auth m.token
      → Accepted m'.auth m'.token
  Accepted-cast m m' n (context, auth, token, count) h = rw (auth, token) h

  Adds-re_register :
      (now : Time) (m : Manager jwt.Pub) → Accepted m.auth m.token → Adds 1 m (re_register now m)
  unfolding re_register
  Adds-re_register now m ok' =
      let closed' = Adds-close_old m in
      let registered' =
        Adds-register_peer now (close_old m) (Accepted-cast m (close_old m) _ closed' ok') in
      let opened = Adds-open_new now (register_peer jwt out r now (close_old m)).1 in ground arith

  Adds-send_heartbeat : (m : Manager jwt.Pub) → Adds 0 m (send_heartbeat m).1
  unfolding send_heartbeat
  Adds-send_heartbeat m = ground arith

  -- A relay that acknowledges no status.
  abbrev pub NeverAcknowledges : Type 0
  NeverAcknowledges =
      (c : Bool) (n : ℕ) (p s : String) (x : Status)
      → (do_request_with_retry r.reported (r.on_status c n p s)).result ≡ ok x
      → x.success ≡ false

  heartbeat_fails :
      (m : Manager jwt.Pub) → NeverAcknowledges → (u : Unit {0}) → (send_heartbeat m).0 ≢ ok u
  unfolding send_heartbeat
  heartbeat_fails m never u h =
      let answer =
        (do_request_with_retry r.reported
          (r.on_status m.cancelled (length m.log) m.peer_id m.relay_session_id)).result in
      elim (Result-cases answer) [
        | inl (s, e) ↦
            let no_success = never m.cancelled (length m.log) m.peer_id m.relay_session_id s e in
            ground arith
        | inr (x, e) ↦ ground arith
      ]

  tick_counts :
      (now : Time) (failures : ℕ) (m : Manager jwt.Pub)
      → NeverAcknowledges
      → Accepted m.auth m.token
      → failures < 3
      → ((tick now failures m).0 ≡ (failures + 1) % 3)
        × Adds ((failures + 1) / 3) m (tick now failures m).1
  unfolding tick
  tick_counts now failures m never ok' lt =
      let sent = Adds-send_heartbeat m in
      let anew =
        Adds-re_register now (send_heartbeat m).1
          (Accepted-cast m (send_heartbeat m).1 _ sent ok') in
      elim (Result-cases (send_heartbeat m).0) [
        | inl (u, e) ↦ absurd (heartbeat_fails m never u e)
        | inr (x, e) ↦ ground arith
      ]

  tick_bounded :
      (now : Time) (failures : ℕ) (m : Manager jwt.Pub) → failures < 3 → (tick now failures m).0 < 3
  unfolding tick
  tick_bounded now failures m lt = ground arith

  -- The number of consecutive failures stays below 3.
  failures_bounded :
      (times : List Time) (failures : ℕ) (m : Manager jwt.Pub)
      → failures < 3
      → (start_heartbeat times failures m).0 < 3
  unfolding start_heartbeat
  failures_bounded [] failures m lt = lt
  failures_bounded (now ∷ later) failures m lt =
      let (failures', m') = tick now failures m in
      let next : failures' < 3 = tick_bounded now failures m lt in
      let rest = failures_bounded later failures' m' next in ground arith

  -- While the context lives and the relay acknowledges no status, and the token is accepted in the HMAC
  -- mode and its configuration can be read: from some failures below 3, k ticks call RegisterPeer
  -- (failures + k) / 3 times, and leave (failures + k) % 3 failures.
  pub registers_every_third :
      (times : List Time) (failures : ℕ) (m : Manager jwt.Pub)
      → NeverAcknowledges
      → Accepted m.auth m.token
      → failures < 3
      → m.cancelled ≡ false
      → ((start_heartbeat times failures m).0 ≡ (failures + length times) % 3)
        × (registers (start_heartbeat times failures m).1.log
            ≡ registers m.log + (failures + length times) / 3)
  unfolding start_heartbeat
  registers_every_third [] failures m never ok' lt live = (ground arith, ground arith)
  registers_every_third (now ∷ later) failures m never ok' lt live =
      let (count, kept) = tick_counts now failures m never ok' lt in
      let (context, auth, token, registered) = kept in
      let (failures', m') = tick now failures m in
      let (rest, more) =
        registers_every_third later failures' m' never (Accepted-cast m m' _ kept ok')
          (rw count (omega arith)) (context ∙ live) in
      (ground arith, ground arith)
