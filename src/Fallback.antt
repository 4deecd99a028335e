-- ===== src/Fallback.antt =====
-- pkg/transport/auto_switch.go: the fallback between transport modes, and the HTTP health checkers.
use Prim.Native.String.{String}
use text.Mathlib.Text.{◌==◌ as str_eq}
use cloudbridge_client.Prelude.{
  ℕ, ◌+◌, ◌==◌, Bool, true, false, ◌&&◌, not, Option, none, some, List, [], ◌∷◌, if◌then◌else◌,
}
use cloudbridge_client.Prelude.Int.{ℤ, pos, ltb_ℤ}
use cloudbridge_client.Prelude.Time.{Time, Duration, since, seconds}
use cloudbridge_client.Prelude.StringMap.{Map, lookup, insert}
pub mod Choice
pub mod Dead

-- `HealthChecker`: what it answers to the question of that number. The error rate, which the manager
-- never asks for, is left out.
pub record HealthChecker : Type 0 where
  pub ok : ℕ → Bool
  pub latency : ℕ → Duration

-- `AutoSwitchConfig` and `DefaultAutoSwitchConfig`.
pub record AutoSwitchConfig : Type 0 where
  pub order : List String
  pub cooldown : Duration
  pub min_dwell : Duration

unfoldable pub default_auto_switch_config : AutoSwitchConfig
default_auto_switch_config = record {
  order = "h3" ∷ "h2_connect" ∷ "ws" ∷ "tcp_connect" ∷ [];
  cooldown = seconds 15;
  min_dwell = seconds 20;
}

-- `AutoSwitchManager`.
pub record AutoSwitchManager : Type 0 where
  pub order : List String
  pub health_checkers : Map HealthChecker
  pub current_mode : String
  pub last_switch : Time
  pub cooldown : Duration
  pub min_dwell : Duration

-- `NewAutoSwitchManager` of a configuration; none stands for the panic on an empty order.
unfoldable pub new_auto_switch_manager : Time → AutoSwitchConfig → Option AutoSwitchManager
new_auto_switch_manager now c = elim c.order [
  | [] ↦ none
  | mode ∷ modes ↦ some (record {
    order = mode ∷ modes;
    health_checkers = [];
    current_mode = mode;
    last_switch = now;
    cooldown = c.cooldown;
    min_dwell = c.min_dwell;
  })
]

-- `RegisterHealthChecker`.
unfoldable pub register_health_checker :
    String → HealthChecker → AutoSwitchManager → AutoSwitchManager
register_health_checker mode c m = record m { health_checkers = insert mode c m.health_checkers }

-- The readings of the clock in one call, the number of its first question to a checker, and the product
-- of a latency with 0.9.
pub record Moment : Type 0 where
  pub first : Time
  pub second : Time
  pub stamp : Time
  pub base : ℕ
  pub scaled : Duration → Duration

-- `canSwitch`.
unfoldable pub can_switch : Moment → AutoSwitchManager → Bool
can_switch t m =
    not (ltb_ℤ (since t.first m.last_switch) m.cooldown)
    && not (ltb_ℤ (since t.second m.last_switch) m.min_dwell)

-- `isHealthyNoLock`.
unfoldable pub is_healthy : ℕ → String → AutoSwitchManager → Bool
is_healthy n mode m = elim (lookup mode m.health_checkers) [ none ↦ false | some c ↦ c.ok n ]

-- `betterThanCurrent`.
unfoldable pub better_than_current : Moment → ℕ → String → AutoSwitchManager → Bool
better_than_current t n candidate m = elim (lookup candidate m.health_checkers) [
  | none ↦ false
  | some cand ↦ elim (lookup m.current_mode m.health_checkers) [
    | none ↦ true
    | some curr ↦ ltb_ℤ (cand.latency n) (t.scaled (curr.latency (n + 1)))
  ]
]

-- The loop of `NextHealthy` over the modes that are left.
unfoldable pub search : Moment → ℕ → List String → AutoSwitchManager → AutoSwitchManager
search t n [] m = m
search t n (mode ∷ modes) m =
    let skipped = search t n modes m in
    let unhealthy = search t (n + 1) modes m in
    let worse = search t (n + 3) modes m in
    if str_eq mode m.current_mode
    then skipped
    else if is_healthy n mode m
    then if better_than_current t (n + 1) mode m
      then record m { current_mode = mode; last_switch = t.stamp }
      else worse
    else unhealthy

-- `NextHealthy`; the mode that it returns is the current one afterwards.
unfoldable pub next_healthy : Moment → AutoSwitchManager → AutoSwitchManager
next_healthy t m =
    if not (can_switch t m) && is_healthy t.base m.current_mode m
    then m
    else search t (t.base + 1) m.order m

-- `ForceSwitch`.
unfoldable pub force_switch : Time → String → AutoSwitchManager → AutoSwitchManager
force_switch now mode m = record m { current_mode = mode; last_switch = now }

-- What a request for a health URL comes to: none, or a status after a time.
pub data Probe : Type 0 where
  failed : Probe
  answered : ℕ → Duration → Probe

-- `H3HealthChecker.OK` and `Latency`, and the same of `H2HealthChecker`.
unfoldable pub probe_ok : Probe → Bool
probe_ok failed = false
probe_ok (answered status elapsed) = status == 200

unfoldable pub probe_latency : Probe → Duration
probe_latency failed = pos 0
probe_latency (answered status elapsed) = elapsed

abbrev pub http_checker : (ℕ → Probe) → HealthChecker
http_checker probe = record { ok = λ n. probe_ok (probe n); latency = λ n. probe_latency (probe n) }
