-- ===== src/Slo/Decisions.antt =====
-- pkg/slo/controller.go: when a switch is recommended, and when a path is healthy.
use cloudbridge_client.Prelude.{◌*◌, ◌≡◌, ◌↔◌, arith, true, false}
use cloudbridge_client.Prelude.Int.{pos, mul64, ◌≤ℤ◌}
use cloudbridge_client.Prelude.Time.{Time, since, millisecond}
use cloudbridge_client.Slo.{
  Float64, SloController, PathMetrics, record_switch, calculate_improvement, get_current_penalty,
  should_switch, calculate_sli_score, get_current_metrics, get_sli_status,
}

module _ (fl : Float64) where
  -- After a recorded switch, another one is recommended exactly if the shortest stay is over at the first
  -- reading of the clock, the improvement at the second is not below a hundredth of the threshold, and
  -- the penalty at the third is not above 0.
  recommended_iff :
      (then' t1 t2 t3 : Time) (sc : SloController fl) (current candidate : PathMetrics fl)
      → (should_switch fl t1 t2 t3 (record_switch fl then' sc) current candidate ≡ true) ↔ (
          (sc.min_dwell ≤ℤ since t1 then')
          × (fl.less
                (calculate_improvement fl t2 (record_switch fl then' sc) current candidate)
                (fl.div sc.hysteresis_threshold fl.f100)
              ≡ false)
          × (fl.less fl.f0 (get_current_penalty fl t3 (record_switch fl then' sc)) ≡ false))
  unfolding should_switch record_switch
  recommended_iff then' t1 t2 t3 sc current candidate = ground arith

  -- How the scores that can come about compare with 0 and with 0.8.
  pub record Scores : Type 0 where
    pub full : fl.less fl.f0_8 fl.f1 ≡ true
    pub full_positive : fl.less fl.f1 fl.f0 ≡ false
    pub zero : fl.less fl.f0_8 fl.f0 ≡ false
    pub rtt : fl.less fl.f0_8 (fl.sub fl.f1 fl.f0_3) ≡ false
    pub both : fl.less fl.f0_8 (fl.sub (fl.sub fl.f1 fl.f0_3) fl.f0_3) ≡ false
    pub all : fl.less fl.f0_8 (fl.sub (fl.sub (fl.sub fl.f1 fl.f0_3) fl.f0_3) fl.f0_2) ≡ false
    pub rtt_jitter : fl.less fl.f0_8 (fl.sub (fl.sub fl.f1 fl.f0_3) fl.f0_2) ≡ false
    pub jitter : fl.less fl.f0_8 (fl.sub fl.f1 fl.f0_2) ≡ false

  -- A path is healthy exactly if its smoothed RTT and jitter, each truncated to whole milliseconds, are at
  -- most 120 ms and 25 ms, and its smoothed loss is not above 0.01.
  pub healthy_iff :
      (sc : SloController fl)
      → Scores
      → ((get_sli_status fl sc).healthy ≡ true) ↔ (
          (mul64 (fl.truncated sc.rtt_ema) millisecond ≤ℤ pos (120 * millisecond))
          × (fl.less fl.f0_01 sc.loss_ema ≡ false)
          × (mul64 (fl.truncated sc.jitter_ema) millisecond ≤ℤ pos (25 * millisecond)))
  unfolding get_sli_status calculate_sli_score get_current_metrics
  healthy_iff sc h =
      ground (arith, h.full, h.full_positive, h.zero, h.rtt, h.both, h.all, h.rtt_jitter, h.jitter)
