-- ===== src/Heartbeat.antt =====
-- pkg/heartbeat/manager.go: the heartbeat manager, its interval with backoff, and the handlers that
-- its loops run. The client and the clock are arguments.
use Prim.Native.String.{String}
use text.Mathlib.Text.{◌==◌ as str_eq}
use cloudbridge_client.Prelude.{
  ℕ, zero, suc, ◌+◌, ◌-◌, Bool, true, false, ◌||◌, not, Option, none, some, leb, if◌then◌else◌,
}
use cloudbridge_client.Prelude.Int.{ℤ, pos, negsuc, ltb_ℤ, leb_ℤ, eqb_ℤ, mul64, wrap64}
use cloudbridge_client.Prelude.Time.{Time, Duration, seconds, millisecond}
pub mod Backoff
pub mod Invariant
pub mod Loop

-- `Manager`. The ticker is its period, if there is one; `stop_open` says that the stop channel is
-- there and open. `fail_count` and `max_fails` are Go ints that stay far from their bounds.
pub record Manager : Type 0 where
  pub interval : Duration
  pub ticker : Option Duration
  pub stop_open : Bool
  pub running : Bool
  pub last_beat : Time
  pub fail_count : ℕ
  pub max_fails : ℕ
  pub base_interval : Duration
  pub max_backoff : Duration

unfoldable pub new_manager : Manager
new_manager = record {
  interval = seconds 30;
  ticker = none;
  stop_open = false;
  running = false;
  last_beat = 0;
  fail_count = 0;
  max_fails = 3;
  base_interval = seconds 30;
  max_backoff = seconds 120;
}

-- The values that `parseFlexibleDuration` tells apart; a float comes truncated to its integer.
pub data ConfigValue : Type 0 where
  missing other : ConfigValue
  duration : Duration → ConfigValue
  words : String → ConfigValue
  float64 int int64 : ℤ → ConfigValue
  uint64 : ℕ → ConfigValue

-- `parseFlexibleDuration`; `parse_duration` is `time.ParseDuration`.
unfoldable pub parse_flexible_duration : (String → Option Duration) → ConfigValue → Option Duration
parse_flexible_duration parse_duration missing = none
parse_flexible_duration parse_duration other = none
parse_flexible_duration parse_duration (duration d) = some d
parse_flexible_duration parse_duration (words t) = if str_eq t "" then none else parse_duration t
parse_flexible_duration parse_duration (float64 t) = some (mul64 t millisecond)
parse_flexible_duration parse_duration (int t) = some (mul64 t millisecond)
parse_flexible_duration parse_duration (int64 t) = some (mul64 t millisecond)
parse_flexible_duration parse_duration (uint64 t) = some (mul64 (wrap64 t) millisecond)

pub data Error : Type 0 where
  already_running not_running not_connected : Error
  client_error : String → Error

-- `Start`: the control channel and the ticker are made anew, at the interval as it stands.
unfoldable pub start : Manager → Manager × Option Error
start m = if m.running then (m, some already_running) else (
  record m { stop_open = true; ticker = some m.interval; fail_count = 0; running = true },
  none,
)

-- `Stop`.
unfoldable pub stop : Manager → Manager
stop m = if not m.running then m else record m { running = false; ticker = none; stop_open = false }

-- `if m.ticker != nil { m.ticker.Stop(); m.ticker = time.NewTicker(d) }`
abbrev pub reset_ticker : Option Duration → Duration → Option Duration
reset_ticker none d = none
reset_ticker (some _) d = some d

-- `SetInterval`.
unfoldable pub set_interval : Duration → Manager → Manager
set_interval d m =
    if leb_ℤ d (pos 0)
    then m
    else record m { base_interval = d; interval = d; ticker = reset_ticker m.ticker d }

-- `SetIntervalFromConfig`.
unfoldable pub set_interval_from_config :
    (String → Option Duration) → ConfigValue → Manager → Manager
set_interval_from_config parse_duration v m = elim (parse_flexible_duration parse_duration v) [
  | none ↦ m
  | some d ↦ set_interval d m
]

unfoldable pub reset_fail_count : Manager → Manager
reset_fail_count m = record m { fail_count = 0 }

-- `SetMaxFails`: only a positive number is taken.
unfoldable pub set_max_fails : ℤ → Manager → Manager
set_max_fails (pos zero) m = m
set_max_fails (pos (suc n)) m = record m { max_fails = suc n }
set_max_fails (negsuc n) m = m

-- `sendHeartbeat`; `sent` is what `client.SendHeartbeat` answers.
unfoldable pub send_heartbeat : Bool → Option Error → Option Error
send_heartbeat connected sent = if not connected then some not_connected else sent

-- `SendManualHeartbeat`: it leaves the manager as it is.
unfoldable pub send_manual_heartbeat : Bool → Option Error → Manager → Option Error
send_manual_heartbeat connected sent m =
    if not m.running then some not_running else send_heartbeat connected sent

-- A new current interval, and the ticker with it if it differs from the old one.
unfoldable pub change_interval : Duration → Manager → Manager
change_interval d m =
    if eqb_ℤ m.interval d then m else record m { interval = d; ticker = reset_ticker m.ticker d }

-- `handleHeartbeatSuccess`, at the time `now`.
unfoldable pub handle_heartbeat_success : Time → Manager → Manager
handle_heartbeat_success now m =
    change_interval m.base_interval (record m { last_beat = now; fail_count = 0 })

-- The loop of `backoffIntervalLocked`, with the rounds left: double, and break at the maximum.
unfoldable pub doublings : ℕ → Duration → Duration → Duration
doublings zero exp limit = exp
doublings (suc n) exp limit =
    let exp' = mul64 exp 2 in
    let rest = doublings n exp' limit in if leb_ℤ limit exp' then limit else rest

-- The two clamps: not under a second, not over the maximum.
abbrev pub clamp : Duration → Duration → Duration
clamp limit next =
    let next' = if ltb_ℤ next (seconds 1) then seconds 1 else next in
    if ltb_ℤ limit next' then limit else next'

-- `backoffIntervalLocked`; `jitter` is the product with `1.0 + (rand.Float64()*2-1)*jitterFrac`.
unfoldable pub backoff_interval : (Duration → Duration) → Manager → Duration
backoff_interval jitter m =
    clamp m.max_backoff (jitter (doublings (m.fail_count - 1) m.base_interval m.max_backoff))

-- `m.failCount++`, and the backoff that follows.
unfoldable pub back_off : (Duration → Duration) → Manager → Manager
back_off jitter m =
    let m' = record m { fail_count = m.fail_count + 1 } in
    change_interval (backoff_interval jitter m') m'

-- `handleHeartbeatFailure`.
unfoldable pub handle_heartbeat_failure : (Duration → Duration) → Manager → Manager
handle_heartbeat_failure jitter m =
    let m' = back_off jitter m in
    if leb m'.max_fails m'.fail_count
    then record m' { running = false; ticker = none; stop_open = false }
    else m'

-- `handleStateEvent`, on the event's state.
unfoldable pub handle_state_event : (Duration → Duration) → String → Manager → Manager
handle_state_event jitter state m =
    if str_eq state "connected"
    then change_interval m.base_interval (record m { fail_count = 0 })
    else if str_eq state "disconnected" || str_eq state "reconnecting"
    then back_off jitter m
    else m
