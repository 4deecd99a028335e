-- ===== src/Tests/Ladders.antt =====
-- pkg/pathselect: the ladder and the health tick with one path down and one up.
use Prim.Native.String.{String}
use cloudbridge_client.Prelude.{
  ℕ, suc, ◌+◌, ◌*◌, ◌<◌, ◌==◌, ◌≡◌, refl, ◌⊎◌, arith, Bool, false, true, not, Option, none, some,
  List, [], ◌∷◌, ok, if◌then◌else◌,
}
use cloudbridge_client.Prelude.Int.{◌≤ℤ◌}
use cloudbridge_client.Prelude.Time.{Time, seconds, second, since}
use cloudbridge_client.Prelude.StringMap.{lookup}
use cloudbridge_client.PathSelect.Session.{
  SessionState, idle, path_selected, Handle, PathError, adapter, Session,
}
use cloudbridge_client.PathSelect.Ladder.{
  Call, opened, World, Env, Selector, OpenRequest, PathAdapter, try_path, ensure_session,
}
use cloudbridge_client.PathSelect.Ladder.Order.{AnswersBy, ensure_takes_first_up}
use cloudbridge_client.PathSelect.Ladder.Handles.{
  OpensFresh, NoLeak, is_open, open_handles, ensure-NoLeak,
}
use cloudbridge_client.PathSelect.Health.{tick_session}
use cloudbridge_client.PathSelect.Health.Outcome.{FailedOver, Stayed}
use cloudbridge_client.PathSelect.Health.Spacing.{tick_spaces_failovers}
use cloudbridge_client.PathSelect.Health.Failover.{tick-NoLeak}

abbrev total : List ℕ → ℕ
total [] = 0
total (n ∷ ns) = n + total ns

-- Paths from 1 on are up, path 0 is down; a new handle is above every open one.
abbrev up : PathAdapter → Bool
up p = not (p == 0)

abbrev probe_up : (PathAdapter → Bool) → PathAdapter → Option PathError
probe_up good p = if good p then none else some (adapter "timeout")

abbrev env_of : (PathAdapter → Bool) → Env
env_of good = record {
  path_name = λ p. if p == 0 then "relay_quic" else "grpc_tunnel";
  probe = λ calls p. probe_up good p;
  open_path = λ calls p req. ok (suc (total (open_handles calls)));
  now = λ calls. 100 * second;
}

abbrev down : PathAdapter → Bool
down p = false

above_total : (h : Handle) (hs : List Handle) → total hs < h → is_open h hs ≡ false
unfolding is_open
above_total h [] l = refl
above_total h (k ∷ ks) l = ground (arith, above_total h ks)

env-OpensFresh : OpensFresh (env_of up)
env-OpensFresh calls p req h e = above_total h (open_handles calls) (ground arith)

abbrev request : OpenRequest
request = record {
  session_id = "session";
  tenant_id = "tenant";
  local_peer = "here";
  remote_peer = "there";
  local_listen = "";
  remote_host = "";
  remote_port = 0;
  meta = [];
}

up-AnswersBy : AnswersBy up (env_of up) request
unfolding try_path
up-AnswersBy p w = ground arith

abbrev selector : Selector
selector = record {
  cfg = record {
    enabled = true;
    order = "missing" ∷ "relay_quic" ∷ "grpc_tunnel" ∷ [];
    probe_timeout = seconds 5;
    ladder_timeout = seconds 45;
    health_interval = seconds 10;
    failover_cooldown = seconds 15;
    soft_fail = false;
  };
  paths = ("relay_quic", 0) ∷ ("grpc_tunnel", 1) ∷ [];
}

abbrev session_in : SessionState → String → Option Handle → Time → Session
session_in st path handle last = record {
  id = "session";
  tenant_id = "tenant";
  local_peer = "here";
  remote_peer = "there";
  state = st;
  active_path = path;
  active = handle;
  last_error = none;
  updated_at = 0;
  last_failover = last;
}

abbrev start : Session
start = session_in idle "" none 0

abbrev world : World
world = record {
  calls = [];
  metrics = record { path_selected_count = 0; path_fail_count = 0; failover_count = 0 };
}

ensure_takes_first_up_example :
    (s' : Session) × (w' : World) × (h : Handle) × (ensure_session
        (env_of up)
        selector
        start
        request
        world
      ≡ (s', w', ok (1, h)))
    × (s'.state ≡ path_selected)
    × (s'.active_path ≡ "grpc_tunnel")
    × (s'.active ≡ some h)
    × (s'.last_error ≡ none)
unfolding lookup
ensure_takes_first_up_example =
    ensure_takes_first_up up (env_of up) selector start request world "grpc_tunnel" 1 up-AnswersBy
      refl refl refl

-- A session on the path that is down, with handle 3 open, and its world.
abbrev serving : Time → Session
serving last = session_in path_selected "relay_quic" (some 3) last

abbrev world_open : World
world_open = record world { calls = opened 0 request 3 ∷ [] }

ensure-NoLeak_example :
    let (s', w', r) = ensure_session (env_of up) selector (serving 0) request world_open in
    NoLeak s' w'
ensure-NoLeak_example =
    ensure-NoLeak (env_of up) selector (serving 0) request world_open env-OpensFresh refl

tick-NoLeak_example :
    let (s', w', e) = tick_session (env_of up) selector (serving 0) world_open in NoLeak s' w'
tick-NoLeak_example = tick-NoLeak (env_of up) selector (serving 0) world_open env-OpensFresh refl

tick_spaces_failovers_example :
    let (s', w', x) = tick_session (env_of up) selector (serving (80 * second)) world_open in
    Stayed (serving (80 * second)) s' world_open w'
    ⊎ (FailedOver (env_of up) selector (serving (80 * second)) s' world_open w'
        × ((c : Call) × ((80 * second ≡ 0)
              ⊎ (seconds 15 ≤ℤ since ((env_of up).now (c ∷ world_open.calls)) (80 * second)))))
tick_spaces_failovers_example =
    tick_spaces_failovers (env_of up) selector (serving (80 * second)) world_open
