-- ===== src/Heartbeat/Loop.antt =====
-- pkg/heartbeat/manager.go: `heartbeatLoop`, which evaluates `m.ticker.C` at the head of each round.
use cloudbridge_client.Prelude.{
  ℕ, zero, suc, ◌+◌, ◌<◌, ◌≤◌, ◌≡◌, arith, Bool, true, false, Option, none, some, List, [], ◌∷◌,
  ◌++◌, replicate,
}
use cloudbridge_client.Prelude.Time.{Time, Duration}
use cloudbridge_client.Heartbeat.{
  Manager, Error, send_heartbeat, change_interval, handle_heartbeat_success, back_off,
  handle_heartbeat_failure,
}
use cloudbridge_client.Heartbeat.Invariant.{IsValid, beat_failed, apply-IsValid}

-- What wakes the loop: the stop channel is closed, or the ticker fires and the client answers.
pub data Wake : Type 0 where
  stopped : Wake
  fired : Bool → Option Error → Time → (Duration → Duration) → Wake

-- Where the loop is after the wakes: in its `select`, returned, or stopped by the run-time panic of a
-- nil ticker.
pub data LoopEnd : Type 0 where
  waiting returned panicked : Manager → LoopEnd

-- The `case <-m.ticker.C` branch.
unfoldable pub on_fired : Bool → Option Error → Time → (Duration → Duration) → Manager → Manager
on_fired connected sent now jitter m = elim (send_heartbeat connected sent) [
  | some e ↦ handle_heartbeat_failure jitter m
  | none ↦ handle_heartbeat_success now m
]

unfoldable pub loop : List Wake → Manager → LoopEnd
loop [] m = elim m.ticker [ none ↦ panicked m | some _ ↦ waiting m ]
loop (stopped ∷ wakes) m = elim m.ticker [ none ↦ panicked m | some _ ↦ returned m ]
loop (fired connected sent now jitter ∷ wakes) m = elim m.ticker [
  | none ↦ panicked m
  | some _ ↦ loop wakes (on_fired connected sent now jitter m)
]

nil_ticker_panics : (wakes : List Wake) (m : Manager) → m.ticker ≡ none → loop wakes m ≡ panicked m
unfolding loop
nil_ticker_panics [] m h = rw h
nil_ticker_panics (stopped ∷ wakes) m h = ground arith
nil_ticker_panics (fired connected sent now jitter ∷ wakes) m h = ground arith

failure_counts :
    (jitter : Duration → Duration) (m : Manager)
    → m.fail_count + 1 < m.max_fails
    → let m' = handle_heartbeat_failure jitter m in
      (m'.fail_count ≡ m.fail_count + 1) × (m'.max_fails ≡ m.max_fails) × (m'.running ≡ m.running)
unfolding handle_heartbeat_failure back_off change_interval
failure_counts jitter m h = ground arith

failure_stops :
    (jitter : Duration → Duration) (m : Manager)
    → m.max_fails ≤ m.fail_count + 1
    → let m' = handle_heartbeat_failure jitter m in (m'.running ≡ false) × (m'.ticker ≡ none)
unfolding handle_heartbeat_failure back_off change_interval
failure_stops jitter m h = ground arith

module _ (connected : Bool) (sent : Option Error) (now : Time) (jitter : Duration → Duration)
    {e : Error} (fails : send_heartbeat connected sent ≡ some e) where
  abbrev failing : Wake
  failing = fired connected sent now jitter

  loop_round :
      (wakes : List Wake) (m : Manager)
      → IsValid m
      → m.running ≡ true
      → loop (failing ∷ wakes) m ≡ loop wakes (handle_heartbeat_failure jitter m)
  unfolding loop on_fired
  loop_round wakes m v r = ground (arith, fails)

  -- Failed beats that stay under the threshold are counted, and the loop goes on.
  loop_survives :
      (k : ℕ) (m : Manager)
      → IsValid m
      → m.running ≡ true
      → m.fail_count + k < m.max_fails
      → (m' : Manager) × (loop (replicate k failing) m ≡ waiting m')
        × (m'.fail_count ≡ m.fail_count + k)
        × (m'.running ≡ true)
  unfolding loop
  loop_survives zero m v r h = (m, ground arith, omega arith, r)
  loop_survives (suc k) m v r h =
      let c = failure_counts jitter m (omega arith) in
      let (m', ends, count, on) =
        loop_survives k (handle_heartbeat_failure jitter m) (apply-IsValid (beat_failed jitter) m v)
          (ground (arith, c)) (omega (arith, c)) in
      (m', rw (loop_round (replicate k failing) m v r) ends, omega (arith, c), on)

  -- The failed beat that reaches the threshold stops the manager, and the loop, back at its `select`,
  -- panics on the ticker that is nil by then, whatever would wake it next.
  pub loop_panics :
      (k : ℕ) (wakes : List Wake) (m : Manager)
      → IsValid m
      → m.running ≡ true
      → m.max_fails ≡ m.fail_count + suc k
      → (m' : Manager) × (loop (replicate (suc k) failing ++ wakes) m ≡ panicked m')
        × (m'.running ≡ false)
  loop_panics zero wakes m v r h =
      let s = failure_stops jitter m (omega arith) in
      (
        handle_heartbeat_failure jitter m,
        rw (loop_round wakes m v r)
            (nil_ticker_panics wakes (handle_heartbeat_failure jitter m) s.1),
        s.0,
      )
  loop_panics (suc k) wakes m v r h =
      let c = failure_counts jitter m (omega arith) in
      let (m', ends, off) =
        loop_panics k wakes (handle_heartbeat_failure jitter m)
          (apply-IsValid (beat_failed jitter) m v) (ground (arith, c)) (omega (arith, c)) in
      (m', rw (loop_round (replicate (suc k) failing ++ wakes) m v r) ends, off)
