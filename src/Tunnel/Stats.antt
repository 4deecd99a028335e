-- ===== src/Tunnel/Stats.antt =====
-- pkg/tunnel/manager.go: `TunnelStats`, over every interleaving of the connections of a tunnel.
use cloudbridge_client.Prelude.{
  ℕ, suc, ◌+◌, ◌-◌, ◌≤◌, ◌<◌, ◌%◌, ◌^◌, ◌≡◌, refl, ap, ◌∙◌, arith, ltb, List, [], ◌∷◌,
  if◌then◌else◌,
}
use cloudbridge_client.Prelude.Int.{ℤ, pos, negsuc, wrap64}
use cloudbridge_client.Prelude.Time.{Time}

-- The counters as bit patterns: two int64 and an int32.
pub record TunnelStats : Type 0 where
  pub bytes_transferred : ℕ
  pub connections_handled : ℕ
  pub active_connections : ℕ
  pub last_activity : Time

-- `NewTunnelStats`.
unfoldable pub new_tunnel_stats : Time → TunnelStats
new_tunnel_stats now = record {
  bytes_transferred = 0;
  connections_handled = 0;
  active_connections = 0;
  last_activity = now;
}

-- `UpdateBytesTransferred`.
unfoldable pub update_bytes_transferred : Time → ℕ → TunnelStats → TunnelStats
update_bytes_transferred now bytes ts = record ts {
  bytes_transferred = (ts.bytes_transferred + bytes) % 2 ^ 64;
  last_activity = now;
}

-- `IncrementConnections`.
unfoldable pub increment_connections : Time → TunnelStats → TunnelStats
increment_connections now ts = record ts {
  connections_handled = (ts.connections_handled + 1) % 2 ^ 64;
  active_connections = (ts.active_connections + 1) % 2 ^ 32;
  last_activity = now;
}

-- `DecrementConnections`.
unfoldable pub decrement_connections : Time → TunnelStats → TunnelStats
decrement_connections now ts = record ts {
  active_connections = (ts.active_connections + 2 ^ 32 - 1) % 2 ^ 32;
  last_activity = now;
}

-- `GetStats`: the counters read as the signed numbers that they are.
unfoldable pub as_int32 : ℕ → ℤ
as_int32 n = let r = n % 2 ^ 32 in if ltb r (2 ^ 31) then pos r else negsuc (2 ^ 32 - 1 - r)

pub record Shown : Type 0 where
  pub bytes_transferred : ℤ
  pub connections_handled : ℤ
  pub active_connections : ℤ

unfoldable pub get_stats : TunnelStats → Shown
get_stats ts = record {
  bytes_transferred = wrap64 ts.bytes_transferred;
  connections_handled = wrap64 ts.connections_handled;
  active_connections = as_int32 ts.active_connections;
}

-- What the goroutines of a tunnel do to its statistics: `handleTunnelConnection` opens and, in a
-- deferred call, closes; a chunk is copied in between.
pub data Event : Type 0 where
  opened closed : Time → Event
  copied : Time → ℕ → Event

abbrev pub apply : Event → TunnelStats → TunnelStats
apply (opened now) ts = increment_connections now ts
apply (closed now) ts = decrement_connections now ts
apply (copied now n) ts = update_bytes_transferred now n ts

unfoldable pub run : List Event → TunnelStats → TunnelStats
run [] ts = ts
run (e ∷ es) ts = run es (apply e ts)

-- What an observer counts: connections opened and closed, and bytes copied.
abbrev pub opens : List Event → ℕ
opens [] = 0
opens (opened now ∷ es) = suc (opens es)
opens (closed now ∷ es) = opens es
opens (copied now n ∷ es) = opens es

abbrev pub closes : List Event → ℕ
closes [] = 0
closes (opened now ∷ es) = closes es
closes (closed now ∷ es) = suc (closes es)
closes (copied now n ∷ es) = closes es

abbrev pub bytes : List Event → ℕ
bytes [] = 0
bytes (opened now ∷ es) = bytes es
bytes (closed now ∷ es) = bytes es
bytes (copied now n ∷ es) = n + bytes es

-- The statistics stand for true counts, up to the widths of the counters.
pub record Counts (ts : TunnelStats) (o c b : ℕ) : Type 0 where
  pub handled : ts.connections_handled ≡ o % 2 ^ 64
  pub active : (ts.active_connections + c) % 2 ^ 32 ≡ o % 2 ^ 32
  pub transferred : ts.bytes_transferred ≡ b % 2 ^ 64
  pub width : ts.active_connections < 2 ^ 32

Counts-cast :
    (ts : TunnelStats) {o o' c c' b b' : ℕ}
    → o ≡ o'
    → c ≡ c'
    → b ≡ b'
    → Counts ts o c b
    → Counts ts o' c' b'
Counts-cast ts p q r k = record {
  handled = omega (arith, k.handled);
  active = omega (arith, k.active);
  transferred = omega (arith, k.transferred);
  width = k.width;
}

opened-Counts :
    (now : Time) (ts : TunnelStats) {o c b : ℕ}
    → Counts ts o c b
    → Counts (increment_connections now ts) (o + 1) c b
unfolding increment_connections
opened-Counts now ts k = omega arith

closed-Counts :
    (now : Time) (ts : TunnelStats) {o c b : ℕ}
    → Counts ts o c b
    → Counts (decrement_connections now ts) o (c + 1) b
unfolding decrement_connections
closed-Counts now ts k = omega arith

copied-Counts :
    (now : Time) (n : ℕ) (ts : TunnelStats) {o c b : ℕ}
    → Counts ts o c b
    → Counts (update_bytes_transferred now n ts) o c (b + n)
unfolding update_bytes_transferred
copied-Counts now n ts k = omega arith

run-Counts :
    (es : List Event) (ts : TunnelStats) (o c b : ℕ)
    → Counts ts o c b
    → Counts (run es ts) (o + opens es) (c + closes es) (b + bytes es)
unfolding run
run-Counts [] ts o c b k = Counts-cast ts (omega arith) (omega arith) (omega arith) k
run-Counts (opened now ∷ es) ts o c b k =
    Counts-cast (run es (increment_connections now ts)) (omega arith) refl refl
      (run-Counts es (increment_connections now ts) (o + 1) c b (opened-Counts now ts k))
run-Counts (closed now ∷ es) ts o c b k =
    Counts-cast (run es (decrement_connections now ts)) refl (omega arith) refl
      (run-Counts es (decrement_connections now ts) o (c + 1) b (closed-Counts now ts k))
run-Counts (copied now n ∷ es) ts o c b k =
    Counts-cast (run es (update_bytes_transferred now n ts)) refl refl (omega arith)
      (run-Counts es (update_bytes_transferred now n ts) o c (b + n) (copied-Counts now n ts k))

as_int32_small : (n : ℕ) → n < 2 ^ 31 → as_int32 n ≡ pos n
unfolding as_int32
as_int32_small n h = ground arith

wrap64_mod : (n m : ℕ) → n ≡ m % 2 ^ 64 → wrap64 n ≡ wrap64 m
unfolding wrap64
wrap64_mod n m h = let same : n % 2 ^ 64 ≡ m % 2 ^ 64 = omega (arith, h) in rw same refl

-- After any interleaving of the connections of a tunnel in which none is closed more often than
-- opened and fewer than 2^31 are open at the end, `GetStats` shows exactly the open connections, and
-- the connections handled and the bytes copied as int64 wrap them.
pub stats_exact :
    (now : Time) (es : List Event)
    → closes es ≤ opens es
    → opens es - closes es < 2 ^ 31
    → let ts = get_stats (run es (new_tunnel_stats now)) in
      (ts.active_connections ≡ pos (opens es - closes es))
      × (ts.connections_handled ≡ wrap64 (opens es))
      × (ts.bytes_transferred ≡ wrap64 (bytes es))
unfolding new_tunnel_stats get_stats
stats_exact now es h w =
    let k = run-Counts es (new_tunnel_stats now) 0 0 0 (omega arith) in
    let ts = run es (new_tunnel_stats now) in
    let active : ts.active_connections ≡ opens es - closes es = omega (arith, k.active, k.width) in
    (
      ap as_int32 active ∙ as_int32_small (opens es - closes es) w,
      wrap64_mod ts.connections_handled (opens es) (omega (arith, k.handled)),
      wrap64_mod ts.bytes_transferred (bytes es) (omega (arith, k.transferred)),
    )
