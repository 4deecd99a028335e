-- ===== src/Probes.antt =====
-- pkg/probes/synthetic.go: the probes, their results and what a check adds to them. The arithmetic of the
-- error rate is a parameter; the counts are natural numbers.
use Prim.Native.String.{String}
use cloudbridge_client.Prelude.{
  ℕ, ◌+◌, ◌==◌, Bool, true, false, Option, none, some, List, [], ◌∷◌, Result, ok, err,
  if◌then◌else◌,
}
use cloudbridge_client.Prelude.Int.{ℤ, pos}
use cloudbridge_client.Prelude.StringMap.{Map, lookup, insert, delete}
use cloudbridge_client.Prelude.Time.{Time, Duration, seconds}
pub mod Counts

-- `ProbeConfig`.
pub record ProbeConfig : Type 0 where
  pub name : String
  pub url : String
  pub method : String
  pub timeout : Duration
  pub enabled : Bool
  pub mode : String
  pub pop : String

-- `ProbeResult`, over the type of floats.
pub record ProbeResult (F : Type 0) : Type 0 where
  pub success : Bool
  pub latency : Duration
  pub error_rate : F
  pub last_check : Time
  pub check_count : ℕ
  pub success_count : ℕ
  pub mode : String
  pub pop : String

-- Floats: 0, and `1.0 - float64(successes)/float64(checks)`.
pub record Rates : Type 1 where
  pub F : Type 0
  pub zero_rate : F
  pub rate : ℕ → ℕ → F

module _ (fl : Rates) where
  -- `SyntheticProbeManager`; its stop channel is open exactly while it runs.
  pub record SyntheticProbeManager : Type 0 where
    pub probes : Map ProbeConfig
    pub results : Map (ProbeResult fl.F)
    pub running : Bool

  -- `NewSyntheticProbeManager`.
  unfoldable pub new_synthetic_probe_manager : SyntheticProbeManager
  new_synthetic_probe_manager = record { probes = []; results = []; running = false }

  -- `AddProbe`; a probe of the same name starts with an empty result.
  unfoldable pub add_probe : ProbeConfig → SyntheticProbeManager → SyntheticProbeManager
  add_probe c m = record m {
    probes = insert c.name c m.probes;
    results =
        insert c.name
          (record {
            success = false;
            latency = pos 0;
            error_rate = fl.zero_rate;
            last_check = 0;
            check_count = 0;
            success_count = 0;
            mode = c.mode;
            pop = c.pop;
          })
          m.results;
  }

  -- `Start`, whether it succeeds, and `Stop`.
  unfoldable pub start : SyntheticProbeManager → Bool × SyntheticProbeManager
  start m = if m.running then (false, m) else (true, record m { running = true })

  unfoldable pub stop : SyntheticProbeManager → SyntheticProbeManager
  stop m = if m.running then record m { running = false } else m

  -- The probes that `runAllProbes` runs.
  unfoldable pub enabled_probes : Map ProbeConfig → List ProbeConfig
  enabled_probes [] = []
  enabled_probes ((n, p) ∷ probes) =
      let rest = enabled_probes probes in if p.enabled then p ∷ rest else rest

  -- The result after one check.
  unfoldable pub checked : Time → Bool → Duration → ProbeResult fl.F → ProbeResult fl.F
  checked now success latency r =
      let good = if success then r.success_count + 1 else r.success_count in
      record r {
        success = success;
        latency = if success then latency else r.latency;
        error_rate = fl.rate good (r.check_count + 1);
        last_check = now;
        check_count = r.check_count + 1;
        success_count = good;
      }

  -- `updateResult`; a probe that was removed while it ran has no result left.
  unfoldable pub update_result :
      Time → String → Bool → Duration → SyntheticProbeManager → SyntheticProbeManager
  update_result now name success latency m = elim (lookup name m.results) [
    | none ↦ m
    | some r ↦ record m { results = insert name (checked now success latency r) m.results }
  ]

  -- `RemoveProbe`.
  unfoldable pub remove_probe : String → SyntheticProbeManager → SyntheticProbeManager
  remove_probe name m = record m { probes = delete name m.probes; results = delete name m.results }

  -- `EnableProbe` and `DisableProbe`.
  unfoldable pub set_enabled : Bool → String → SyntheticProbeManager → SyntheticProbeManager
  set_enabled on name m = elim (lookup name m.probes) [
    | none ↦ m
    | some p ↦ record m { probes = insert name (record p { enabled = on }) m.probes }
  ]

  unfoldable pub enable_probe : String → SyntheticProbeManager → SyntheticProbeManager
  enable_probe name m = set_enabled true name m

  unfoldable pub disable_probe : String → SyntheticProbeManager → SyntheticProbeManager
  disable_probe name m = set_enabled false name m
