-- ===== src/RelayClient.antt =====
-- pkg/relay/client.go: the connection of the relay client and its mutex. A call runs in one goroutine;
-- Go's RWMutex is not reentrant, so a goroutine that asks for the lock that it holds itself waits for
-- ever. The adapter is there where it is in use; what the network answers is an argument.
use Prim.Native.String.{String}
use text.Mathlib.Text.{◌==◌ as str_eq}
use cloudbridge_client.Prelude.{
  ℕ, ◌+◌, ◌-◌, ltb, Bool, true, false, ◌||◌, not, Option, none, some, List, [], ◌∷◌, ◌++◌, length,
  Result, ok, err, if◌then◌else◌,
}
use cloudbridge_client.Prelude.Time.{Time}
use cloudbridge_client.Auth.{Fields, Json, string}
use cloudbridge_client.Auth.Claims.{get, as_text}
pub mod Locks
pub mod Tunnels
pub mod Login
pub mod Peering

pub data Effect : Type 0 where
  adapter_disconnected conn_closed heartbeat_stopped switch_stopped watcher_stopped
        metrics_stopped :
      Effect

pub data Error : Type 0 where
  already_connected adapter_failed hello_failed tls_failed dial_failed not_connected : Error
  not_sent no_response unexpected_type : Error

-- `Client`, the parts that its connection needs. `writer` and `readers` are the state of `mu`; `events`
-- is the channel of state events, none if it is nil; `log` lists the effects, the latest first.
pub record Client : Type 0 where
  pub connected : Bool
  pub use_transport_adapter : Bool
  pub conn : Bool
  pub has_switch : Bool
  pub has_watcher : Bool
  pub has_metrics : Bool
  pub last_heartbeat : Time
  pub events : Option (List (String × String))
  pub writer : Bool
  pub readers : ℕ
  pub cancelled : Bool
  pub log : List Effect

-- What the network and the adapter answer in one call. `dial_hangs` is a relay that is silent in the TLS
-- handshake, and `silent` one that accepts what is sent and never answers: `tls.Dial` and
-- `receiveMessage` have no deadline, as the adapter's calls have. `receive` is the answer otherwise. The
-- calls of Login and Tunnels are modelled for a relay that is not silent.
pub record World : Type 0 where
  pub now : Time
  pub adapter_connect : Bool
  pub adapter_hello : Bool
  pub adapter_heartbeat : Bool
  pub tls : Bool
  pub dial : Bool
  pub send : Bool
  pub dial_hangs : Bool
  pub silent : Bool
  pub receive : Option Fields

-- A run: the goroutine waits for ever, or the call returns and leaves the client so.
pub data Run (A : Type 0) : Type 0 where
  blocked : Run A
  returned : A → Client → Run A

unfoldable pub bind : {A B : Type 0} → Run A → (A → Client → Run B) → Run B
bind blocked f = blocked
bind (returned a c) f = f a c

-- `mu.Lock`, `mu.Unlock`, `mu.RLock` and `mu.RUnlock`.
unfoldable pub lock : Client → Run (Unit {0})
lock c = if c.writer || ltb 0 c.readers then blocked else returned tt (record c { writer = true })

abbrev pub unlock : Client → Client
unlock c = record c { writer = false }

unfoldable pub r_lock : Client → Run (Unit {0})
r_lock c = if c.writer then blocked else returned tt (record c { readers = c.readers + 1 })

abbrev pub r_unlock : Client → Client
r_unlock c = record c { readers = c.readers - 1 }

-- `mu.Lock` with a deferred `mu.Unlock`.
unfoldable pub locked : {A : Type 0} → (Client → Run A) → Client → Run A
locked body c = bind (lock c) (λ u c1. bind (body c1) (λ a c2. returned a (unlock c2)))

abbrev pub done : Effect → Client → Client
done e c = record c { log = e ∷ c.log }

-- The channel holds ten events; more are dropped.
abbrev pub pushed :
    String × String → Option (List (String × String)) → Option (List (String × String))
pushed e none = none
pushed e (some es) = if ltb (length es) 10 then some (es ++ e ∷ []) else some es

-- `emitStateEvent`.
unfoldable pub emit_state_event : String → String → Client → Run (Unit {0})
emit_state_event state reason c =
    bind (r_lock c)
      (λ u c1. returned tt (r_unlock (record c1 { events = pushed (state, reason) c1.events })))

-- `response["type"] == want`
abbrev pub is_type : String → Fields → Bool
is_type want fs = elim (as_text (get "type" fs)) [ none ↦ false | some s ↦ str_eq s want ]

-- `response["status"]` and `response["error"]` of an answer; none where the status is `ok`.
abbrev pub error_text : String → Fields → String
error_text default fs = elim (as_text (get "error" fs)) [ none ↦ default | some e ↦ e ]

abbrev pub status_error : String → Fields → Option String
status_error default fs = elim (as_text (get "status" fs)) [
  | none ↦ some (error_text default fs)
  | some s ↦ if str_eq s "ok" then none else some (error_text default fs)
]

abbrev pub Call : Type 0
Call = Run (Result Error (Unit {0}))

-- The receipt of an answer of the wanted type; `then_do` is what follows it.
unfoldable pub receive_type :
    World → String → Client → (Client → Call) → (Error → Client → Call) → Call
receive_type w want c then_do failed = if w.silent then blocked else elim w.receive [
  | none ↦ failed no_response c
  | some fs ↦ if is_type want fs then then_do c else failed unexpected_type c
]

-- The adapter's branch of `Connect`.
unfoldable pub connect_adapter : World → Client → Call
connect_adapter w c =
    if not w.adapter_connect
    then returned (err adapter_failed) c
    else if not w.adapter_hello
    then returned (err hello_failed) (done adapter_disconnected c)
    else bind (lock c) (λ u c1.
      bind
        (emit_state_event "connected" "transport adapter" (unlock (record c1 { connected = true })))
        (λ v c2. returned (ok tt) c2))

-- The branch of `Connect` over TCP or TLS, with `sendHello` and `receiveHelloResponse`.
unfoldable pub connect_legacy : World → Client → Call
connect_legacy w c =
    if not w.tls
    then returned (err tls_failed) c
    else if w.dial_hangs
    then blocked
    else if not w.dial
    then returned (err dial_failed) c
    else let c1 = record c { conn = true } in
      if not w.send
      then returned (err not_sent) (done conn_closed c1)
      else receive_type w "hello_response" c1
          (λ c2.
            bind
              (emit_state_event "connected" "legacy JSON transport"
                (record c2 { connected = true }))
              (λ v c3. returned (ok tt) c3))
          (λ e c2. returned (err e) (done conn_closed c2))

-- `Connect`.
unfoldable pub connect : World → Client → Call
connect w c = bind (lock c) (λ u c1.
    if c1.connected
    then returned (err already_connected) (unlock c1)
    else if c1.use_transport_adapter
    then connect_adapter w (unlock c1)
    else connect_legacy w (unlock c1))

-- `Disconnect` under its lock.
unfoldable pub disconnect_locked : Client → Call
disconnect_locked c =
    if not c.connected
    then returned (ok tt) c
    else let c1 = if c.use_transport_adapter then done adapter_disconnected c else c in
      let c2 = if c.conn then done conn_closed (record c1 { conn = false }) else c1 in
      bind (emit_state_event "disconnected" "manual disconnect" (record c2 { connected = false }))
        (λ u c3. returned (ok tt) c3)

-- `Disconnect`.
unfoldable pub disconnect : Client → Call
disconnect c = locked disconnect_locked c

-- `Reconnect`.
unfoldable pub reconnect : World → Client → Call
reconnect w c =
    locked
      (λ c1.
        if c1.connected
        then bind (disconnect c1)
            (λ r c2. elim r [ err e ↦ returned (err e) c2 | ok u ↦ connect w c2 ])
        else connect w c1)
      c

-- The time of the last heartbeat, which is stored under a lock of its own.
unfoldable pub note_heartbeat : World → Client → Call
note_heartbeat w c =
    bind (lock c) (λ u c1. returned (ok tt) (unlock (record c1 { last_heartbeat = w.now })))

-- `SendHeartbeat` under its lock.
unfoldable pub send_heartbeat_locked : World → Client → Call
send_heartbeat_locked w c =
    if not c.connected
    then returned (err not_connected) c
    else if c.use_transport_adapter
    then if w.adapter_heartbeat then note_heartbeat w c else returned (err adapter_failed) c
    else if not w.send
    then returned (err not_sent) c
    else receive_type w "heartbeat_response" c (note_heartbeat w) (λ e c1. returned (err e) c1)

-- `SendHeartbeat`.
unfoldable pub send_heartbeat : World → Client → Call
send_heartbeat w c = locked (send_heartbeat_locked w) c

-- `Close`, whose deferred calls end with the context's.
unfoldable pub close_locked : Client → Client
close_locked c =
    if not c.connected
    then c
    else let c1 = done heartbeat_stopped c in
      let c2 = if c.has_switch then done switch_stopped c1 else c1 in
      let c3 = if c.has_watcher then done watcher_stopped c2 else c2 in
      let c4 = if c.has_metrics then done metrics_stopped c3 else c3 in
      let c5 = if c.conn then done conn_closed c4 else c4 in record c5 { connected = false }

unfoldable pub close : Client → Call
close c = locked (λ c1. returned (ok tt) (record (close_locked c1) { cancelled = true })) c
