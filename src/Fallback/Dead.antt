-- ===== src/Fallback/Dead.antt =====
-- pkg/transport/auto_switch.go: `NextHealthy` where the health requests of the current mode fail.
use Prim.Native.String.{String}
use cloudbridge_client.Prelude.{
  ℕ, ◌+◌, ◌≡◌, refl, arith, inl, inr, false, some, Option-cases, List, [], ◌∷◌,
}
use cloudbridge_client.Prelude.Int.{ℤ, pos, ltb_ℤ, ◌≤ℤ◌}
use cloudbridge_client.Prelude.StringMap.{lookup}
use cloudbridge_client.Fallback.{
  AutoSwitchManager, HealthChecker, Moment, Probe, failed, probe_latency, http_checker,
  better_than_current, search, next_healthy,
}

-- Every registered checker measures latencies that are not below 0.
abbrev pub Measures : AutoSwitchManager → Type 0
Measures m =
    (mode : String) (c : HealthChecker) (n : ℕ)
    → lookup mode m.health_checkers ≡ some c
    → pos 0 ≤ℤ c.latency n

not_below_zero : (l s : ℤ) → pos 0 ≤ℤ l → s ≡ pos 0 → ltb_ℤ l s ≡ false
not_below_zero l s h e = rw e (ground arith)

never_better :
    (t : Moment) (n : ℕ) (candidate : String) (m : AutoSwitchManager) (probe : ℕ → Probe)
    → lookup m.current_mode m.health_checkers ≡ some (http_checker probe)
    → ((k : ℕ) → probe k ≡ failed)
    → t.scaled (pos 0) ≡ pos 0
    → Measures m
    → better_than_current t n candidate m ≡ false
unfolding better_than_current probe_latency
never_better t n candidate m probe here down zero' measures =
    elim (Option-cases (lookup candidate m.health_checkers)) [
      | inl missing ↦ rw (missing, better_than_current) refl
      | inr (c, found) ↦
          rw (found, here, down (n + 1), zero', better_than_current)
            (not_below_zero (c.latency n) (pos 0) (measures candidate c n found) refl)
    ]

search_stays :
    (t : Moment) (n : ℕ) (modes : List String) (m : AutoSwitchManager)
    → ((k : ℕ) (mode : String) → better_than_current t k mode m ≡ false)
    → search t n modes m ≡ m
unfolding search
search_stays t n [] m never = refl
search_stays t n (x ∷ modes) m never =
    let skipped = search_stays t n modes m never in
    let unhealthy = search_stays t (n + 1) modes m never in
    let worse = search_stays t (n + 3) modes m never in let no = never (n + 1) x in ground arith

-- While the health requests of the current mode fail, `NextHealthy` never leaves it, whatever the other
-- modes are, if no registered checker measures a latency below 0.
pub dead_mode_kept :
    (t : Moment) (m : AutoSwitchManager) (probe : ℕ → Probe)
    → lookup m.current_mode m.health_checkers ≡ some (http_checker probe)
    → ((k : ℕ) → probe k ≡ failed)
    → t.scaled (pos 0) ≡ pos 0
    → Measures m
    → next_healthy t m ≡ m
unfolding next_healthy
dead_mode_kept t m probe here down zero' measures =
    let stays =
      search_stays t (t.base + 1) m.order m
        (λ k mode. never_better t k mode m probe here down zero' measures) in
    ground arith
