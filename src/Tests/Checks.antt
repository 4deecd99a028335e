-- ===== src/Tests/Checks.antt =====
-- pkg/probes: a probe that is checked twice, and once more after its removal.

use cloudbridge_client.Prelude.{ℕ, true, false, List, [], ◌∷◌}
use cloudbridge_client.Prelude.Int.{pos}
use cloudbridge_client.Prelude.Time.{seconds}
use cloudbridge_client.Probes.{ProbeConfig, Rates, new_synthetic_probe_manager}
use cloudbridge_client.Probes.Counts.{
  IsSound, Op, added, removed, ended, apply_ops, apply_ops-IsSound,
}

-- A rate as its two counts.
abbrev pairs : Rates
pairs = record { F = ℕ × ℕ; zero_rate = (0, 0); rate = λ s c. (s, c) }

abbrev probe : ProbeConfig
probe = record {
  name = "h3";
  url = "https://relay/health";
  method = "GET";
  timeout = seconds 1;
  enabled = true;
  mode = "h3";
  pop = "edge";
}

abbrev ops : List (Op pairs)
ops =
    added probe
    ∷ ended 5 "h3" true (pos 9)
    ∷ ended 6 "h3" false (pos 7)
    ∷ removed "h3"
    ∷ ended 8 "h3" true (pos 9)
    ∷ []

apply_ops-IsSound_example : IsSound pairs (apply_ops pairs ops (new_synthetic_probe_manager pairs))
apply_ops-IsSound_example = apply_ops-IsSound pairs ops
