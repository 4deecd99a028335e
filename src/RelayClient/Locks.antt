-- ===== src/RelayClient/Locks.antt =====
-- pkg/relay/client.go: which calls return, and which wait for a lock that they hold themselves.
use cloudbridge_client.Prelude.{◌⊎◌, ◌≡◌, ◌≢◌, arith, true, false, ok, err}
use cloudbridge_client.RelayClient.{
  Client, World, blocked, returned, bind, lock, r_lock, locked, emit_state_event, Call,
  receive_type, connect_adapter, connect_legacy, connect, disconnect_locked, disconnect, reconnect,
  note_heartbeat, send_heartbeat_locked, send_heartbeat,
}

-- Nobody holds the lock.
abbrev pub Free : Client → Type 0
Free c = (c.writer ≡ false) × (c.readers ≡ 0)

-- `SendHeartbeat` never reports a success: it asks for its lock a second time once the heartbeat has been
-- acknowledged.
pub heartbeat_never_succeeds :
    (w : World) (c c' : Client) → send_heartbeat w c ≢ returned (ok tt) c'
unfolding send_heartbeat locked send_heartbeat_locked note_heartbeat receive_type bind lock
heartbeat_never_succeeds w c c' h = ground arith

-- `Reconnect` never returns, whatever the client's state is: it holds the lock that `Disconnect` and
-- `Connect` ask for.
pub reconnect_blocks : (w : World) (c : Client) → reconnect w c ≡ blocked
unfolding reconnect locked disconnect connect bind lock
reconnect_blocks w c = ground arith

-- `Disconnect` of a connected client never returns: it holds the lock that its event asks for.
disconnect_blocks : (c : Client) → c.connected ≡ true → disconnect c ≡ blocked
unfolding disconnect locked disconnect_locked emit_state_event bind lock r_lock
disconnect_blocks c h = ground arith

-- A call of `Connect` waits for ever only over JSON for a relay that stays silent in the TLS handshake or
-- accepts the hello and stays silent; otherwise it returns with the lock free, and has connected the client
-- if it succeeded, and left it as connected as it was if it failed.
abbrev pub Ends : World → Client → Call → Type 0
Ends w c blocked =
    (c.use_transport_adapter ≡ false)
    × (c.connected ≡ false)
    × ((w.dial_hangs ≡ true) ⊎ ((w.dial ≡ true) × (w.send ≡ true) × (w.silent ≡ true)))
Ends w c (returned (ok u) c') = Free c' × (c'.connected ≡ true)
Ends w c (returned (err e) c') = Free c' × (c'.connected ≡ c.connected)

-- `Connect` on a free lock waits for ever only for a relay that, over JSON, stays silent in the TLS
-- handshake or accepts the hello and stays silent; otherwise it returns and leaves the lock free, and where
-- it succeeds the client is connected, and where it fails the client is as connected as before.
pub connect-Ends : (w : World) (c : Client) → Free c → Ends w c (connect w c)
unfolding connect connect_adapter connect_legacy emit_state_event receive_type bind lock r_lock
connect-Ends w c free = ground arith
