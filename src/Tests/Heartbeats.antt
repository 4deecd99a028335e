-- ===== src/Tests/Heartbeats.antt =====
-- pkg/heartbeat: a manager that starts, fails and recovers.
use cloudbridge_client.Prelude.{
  ◌≡◌, refl, ◌*◌, ◌^◌, arith, false, true, none, some, List, [], ◌∷◌, ◌++◌, replicate, min,
}
use cloudbridge_client.Prelude.Int.{pos}
use cloudbridge_client.Prelude.Time.{Duration, seconds, second}
use cloudbridge_client.Heartbeat.{
  Manager, not_connected, new_manager, clamp, backoff_interval, send_heartbeat,
}
use cloudbridge_client.Heartbeat.Backoff.{backoff_interval-eq-min}
use cloudbridge_client.Heartbeat.Invariant.{
  IsValid, Op, start_call, stop_call, beat_ok, beat_failed, state_event, interval_call, run,
  run-IsValid,
}
use cloudbridge_client.Heartbeat.Loop.{fired, stopped, loop, panicked, loop_panics}

abbrev steady : Duration → Duration
steady d = d

abbrev ops : List Op
ops =
    start_call
    ∷ interval_call (seconds 10)
    ∷ beat_failed steady
    ∷ beat_failed steady
    ∷ beat_ok 7
    ∷ state_event steady "reconnecting"
    ∷ stop_call
    ∷ []

run-IsValid_example : IsValid (run ops new_manager)
run-IsValid_example = run-IsValid ops

-- A running manager, one failure in.
abbrev started : Manager
started = record {
  interval = seconds 30;
  ticker = some (seconds 30);
  stop_open = true;
  running = true;
  last_beat = 0;
  fail_count = 1;
  max_fails = 3;
  base_interval = seconds 30;
  max_backoff = seconds 120;
}

started-IsValid : IsValid started
started-IsValid = record {
  ticks = refl;
  stoppable = refl;
  positive = omega arith;
  base_positive = omega arith;
  limit = refl;
  threshold = omega arith;
}

beat_fails : send_heartbeat false none ≡ some not_connected
unfolding send_heartbeat
beat_fails = refl

loop_panics_example :
    (m' : Manager) × (loop (replicate 2 (fired false none 9 steady) ++ stopped ∷ []) started
      ≡ panicked m')
    × (m'.running ≡ false)
loop_panics_example =
    loop_panics false none 9 steady beat_fails 1 (stopped ∷ []) started started-IsValid refl refl

abbrev failed_thrice : Manager
failed_thrice = record started { fail_count = 3 }

backoff_interval-eq-min_example :
    backoff_interval steady failed_thrice
    ≡ clamp (seconds 120) (steady (pos (min (30 * second * 2 ^ 2) (120 * second))))
backoff_interval-eq-min_example =
    backoff_interval-eq-min steady failed_thrice 1 (30 * second) (120 * second) refl refl refl
      (omega arith) (omega arith)
