-- ===== src/Tests/Fallbacks.antt =====
-- pkg/transport: a manager with two modes, of which one answers.

use text.Mathlib.TextEquality.{eq_iff}
use cloudbridge_client.Prelude.{ℕ, ◌≡◌, ◌≢◌, refl, arith, ◌⊎◌, inl, inr, true, false, some, [], ◌∷◌}
use cloudbridge_client.Prelude.Int.{pos, ◌≤ℤ◌}
use cloudbridge_client.Prelude.StringMap.{lookup}
use cloudbridge_client.Prelude.Time.{since, seconds}
use cloudbridge_client.Fallback.{
  AutoSwitchManager, Moment, Probe, failed, answered, http_checker, probe_ok, probe_latency,
  is_healthy, better_than_current, next_healthy,
}
use cloudbridge_client.Fallback.Choice.{IsMoved, next_healthy_moves, better_mode_taken}
use cloudbridge_client.Fallback.Dead.{Measures, dead_mode_kept}

abbrev moment : Moment
moment = record { first = 9; second = 9; stamp = 10; base = 0; scaled = λ l. l }

-- The current mode `h3`, with the given probes, and `ws`, which answers in 5 ns.
abbrev manager : (ℕ → Probe) → AutoSwitchManager
manager probe = record {
  order = "h3" ∷ "ws" ∷ [];
  health_checkers =
      ("h3", http_checker probe) ∷ ("ws", http_checker (λ n. answered 200 (pos 5))) ∷ [];
  current_mode = "h3";
  last_switch = 4;
  cooldown = seconds 15;
  min_dwell = seconds 20;
}

abbrev slow : AutoSwitchManager
slow = manager (λ n. answered 503 (pos 100))

abbrev dead : AutoSwitchManager
dead = manager (λ n. failed)

next_healthy_moves_example :
    (next_healthy moment slow ≡ slow)
    ⊎ (IsMoved moment slow.order slow (next_healthy moment slow)
        × ((is_healthy moment.base slow.current_mode slow ≡ false)
            ⊎ ((slow.cooldown ≤ℤ since moment.first slow.last_switch)
                × (slow.min_dwell ≤ℤ since moment.second slow.last_switch))))
next_healthy_moves_example = next_healthy_moves moment slow

h3≢ws : "ws" ≢ slow.current_mode
h3≢ws e = absurd (ground (arith, eq_iff "ws" "h3"))

ws_healthy : (k : ℕ) → is_healthy k "ws" slow ≡ true
unfolding is_healthy lookup probe_ok
ws_healthy k = refl

ws_better : (k : ℕ) → better_than_current moment k "ws" slow ≡ true
unfolding better_than_current lookup probe_latency
ws_better k = refl

h3_ill : is_healthy 0 "h3" slow ≡ false
unfolding is_healthy lookup probe_ok
h3_ill = refl

better_mode_taken_example : (next_healthy moment slow).current_mode ≢ slow.current_mode
better_mode_taken_example =
    better_mode_taken moment slow "ws" (inr (inl refl)) h3≢ws ws_healthy ws_better (inl h3_ill)

dead-Measures : Measures dead
unfolding lookup probe_latency
dead-Measures mode c n h = ground arith

dead_here : lookup dead.current_mode dead.health_checkers ≡ some (http_checker (λ n. failed))
unfolding lookup
dead_here = refl

dead_mode_kept_example : next_healthy moment dead ≡ dead
dead_mode_kept_example =
    dead_mode_kept moment dead (λ n. failed) dead_here (λ k. refl) refl dead-Measures
