-- ===== src/Heartbeat/Invariant.antt =====
-- What holds of the manager between two calls: the ticker and the stop channel are there exactly
-- while it runs, and the ticker beats at the current interval.
use Prim.Native.String.{String}
use cloudbridge_client.Prelude.{
  ℕ, zero, suc, ◌+◌, ◌<◌, ◌≡◌, arith, Bool, true, false, Option, none, some, List, [], ◌∷◌,
}
use cloudbridge_client.Prelude.Int.{ℤ, pos, negsuc, ◌<ℤ◌}
use cloudbridge_client.Prelude.Time.{Time, Duration, seconds}
use cloudbridge_client.Heartbeat.{
  Manager, new_manager, start, stop, set_interval, reset_fail_count, set_max_fails, change_interval,
  handle_heartbeat_success, backoff_interval, back_off, handle_heartbeat_failure,
  handle_state_event,
}
use cloudbridge_client.Heartbeat.Backoff.{backoff_interval_bounds}

abbrev ticking : Bool → Duration → Option Duration
ticking true d = some d
ticking false d = none

pub record IsValid (m : Manager) : Type 0 where
  pub ticks : m.ticker ≡ ticking m.running m.interval
  pub stoppable : m.stop_open ≡ m.running
  pub positive : pos 0 <ℤ m.interval
  pub base_positive : pos 0 <ℤ m.base_interval
  pub limit : m.max_backoff ≡ seconds 120
  pub threshold : 0 < m.max_fails

-- The calls and handlers of the manager, with what the outside answers.
pub data Op : Type 0 where
  start_call stop_call reset_call : Op
  interval_call : Duration → Op
  max_fails_call : ℤ → Op
  beat_ok : Time → Op
  beat_failed : (Duration → Duration) → Op
  state_event : (Duration → Duration) → String → Op

abbrev pub apply : Op → Manager → Manager
apply start_call m = (start m).0
apply stop_call m = stop m
apply reset_call m = reset_fail_count m
apply (interval_call d) m = set_interval d m
apply (max_fails_call n) m = set_max_fails n m
apply (beat_ok now) m = handle_heartbeat_success now m
apply (beat_failed jitter) m = handle_heartbeat_failure jitter m
apply (state_event jitter state) m = handle_state_event jitter state m

new_manager-IsValid : IsValid new_manager
unfolding new_manager
new_manager-IsValid = ground arith

change_interval-IsValid :
    (d : Duration) (m : Manager) → pos 0 <ℤ d → IsValid m → IsValid (change_interval d m)
unfolding change_interval
change_interval-IsValid d m h v = ground arith

recounted-IsValid :
    (now : Time) (n : ℕ) (m : Manager)
    → IsValid m
    → IsValid (record m { last_beat = now; fail_count = n })
recounted-IsValid now n m v = record {
  ticks = v.ticks;
  stoppable = v.stoppable;
  positive = v.positive;
  base_positive = v.base_positive;
  limit = v.limit;
  threshold = v.threshold;
}

back_off_pos :
    (jitter : Duration → Duration) (m : Manager)
    → m.max_backoff ≡ seconds 120
    → pos 0 <ℤ backoff_interval jitter m
back_off_pos jitter m e = omega (arith, backoff_interval_bounds jitter m (rw e (omega arith)))

back_off-IsValid :
    (jitter : Duration → Duration) (m : Manager) → IsValid m → IsValid (back_off jitter m)
unfolding back_off
back_off-IsValid jitter m v =
    let m' : Manager = record m { fail_count = m.fail_count + 1 } in
    change_interval-IsValid (backoff_interval jitter m') m' (back_off_pos jitter m' v.limit)
      (recounted-IsValid m.last_beat (m.fail_count + 1) m v)

restored-IsValid :
    (now : Time) (m : Manager)
    → IsValid m
    → IsValid (change_interval m.base_interval (record m { last_beat = now; fail_count = 0 }))
restored-IsValid now m v =
    change_interval-IsValid m.base_interval (record m { last_beat = now; fail_count = 0 })
      v.base_positive (recounted-IsValid now 0 m v)

-- Every call and every handler keeps the manager valid.
pub apply-IsValid : (op : Op) (m : Manager) → IsValid m → IsValid (apply op m)
unfolding start stop reset_fail_count set_interval set_max_fails handle_heartbeat_success
    handle_heartbeat_failure handle_state_event
apply-IsValid start_call m v = ground arith
apply-IsValid stop_call m v = ground arith
apply-IsValid reset_call m v = ground arith
apply-IsValid (interval_call d) m v = ground arith
apply-IsValid (max_fails_call (pos zero)) m v = v
apply-IsValid (max_fails_call (pos (suc n))) m v = ground arith
apply-IsValid (max_fails_call (negsuc n)) m v = v
apply-IsValid (beat_ok now) m v = restored-IsValid now m v
apply-IsValid (beat_failed jitter) m v = ground (arith, back_off-IsValid jitter m v)
apply-IsValid (state_event jitter state) m v =
    ground (arith, back_off-IsValid jitter m v, restored-IsValid m.last_beat m v)

-- The manager after a list of calls and events.
unfoldable pub run : List Op → Manager → Manager
run [] m = m
run (op ∷ ops) m = run ops (apply op m)

run-keeps : (ops : List Op) (m : Manager) → IsValid m → IsValid (run ops m)
unfolding run
run-keeps [] m v = v
run-keeps (op ∷ ops) m v = run-keeps ops (apply op m) (apply-IsValid op m v)

-- Every manager that is reached from a new one, by any calls and events at all, is valid: it has a
-- ticker and an open stop channel exactly if it runs, the ticker beats at the current interval, and
-- the interval and its base are positive.
pub run-IsValid : (ops : List Op) → IsValid (run ops new_manager)
run-IsValid ops = run-keeps ops new_manager new_manager-IsValid
