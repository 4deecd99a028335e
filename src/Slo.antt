-- ===== src/Slo.antt =====
-- pkg/slo/controller.go: the SLO controller. float64 is a parameter: its operations, comparisons,
-- conversions and literals.
use cloudbridge_client.Prelude.{ℕ, ◌*◌, Bool, true, false, Option, none, some, if◌then◌else◌}
use cloudbridge_client.Prelude.Int.{ℤ, pos, ltb_ℤ, mul64}
use cloudbridge_client.Prelude.Time.{Time, Duration, since, seconds, millisecond}
pub mod Decisions

-- `of_duration` is `float64(d)`, `of_ms` is `float64(d.Milliseconds())`, `truncated` is
-- `time.Duration(f)`; a literal is named by its digits.
pub record Float64 : Type 1 where
  pub F : Type 0
  pub add : F → F → F
  pub sub : F → F → F
  pub mul : F → F → F
  pub div : F → F → F
  pub less : F → F → Bool
  pub is_zero : F → Bool
  pub of_duration : Duration → F
  pub of_ms : Duration → F
  pub truncated : F → ℤ
  pub f0 : F
  pub f1 : F
  pub f10 : F
  pub f50 : F
  pub f100 : F
  pub f1000 : F
  pub f0_01 : F
  pub f0_2 : F
  pub f0_3 : F
  pub f0_8 : F

module _ (fl : Float64) where
  -- `SLOConfig`, the fields that the controller takes.
  pub record SloConfig : Type 0 where
    pub alpha : fl.F
    pub switch_penalty : Duration
    pub min_dwell : Duration
    pub hysteresis_threshold : fl.F

  -- `SLOController`.
  pub record SloController : Type 0 where
    pub rtt_ema : fl.F
    pub loss_ema : fl.F
    pub jitter_ema : fl.F
    pub switch_penalty : Duration
    pub last_switch : Time
    pub min_dwell : Duration
    pub hysteresis_threshold : fl.F
    pub alpha : fl.F

  -- `PathMetrics` and `SLIStatus`.
  pub record PathMetrics : Type 0 where
    pub rtt : Duration
    pub loss : fl.F
    pub jitter : Duration

  pub record SliStatus : Type 0 where
    pub metrics : PathMetrics
    pub score : fl.F
    pub healthy : Bool

  -- `DefaultSLOConfig`.
  unfoldable pub default_slo_config : SloConfig
  default_slo_config = record {
    alpha = fl.f0_2;
    switch_penalty = seconds 15;
    min_dwell = seconds 20;
    hysteresis_threshold = fl.f10;
  }

  -- `NewSLOController`.
  abbrev or_default : Option SloConfig → SloConfig
  or_default none = default_slo_config
  or_default (some c) = c

  unfoldable pub new_slo_controller : Option SloConfig → SloController
  new_slo_controller config =
      let c = or_default config in
      record {
        rtt_ema = fl.f0;
        loss_ema = fl.f0;
        jitter_ema = fl.f0;
        switch_penalty = c.switch_penalty;
        last_switch = 0;
        min_dwell = c.min_dwell;
        hysteresis_threshold = c.hysteresis_threshold;
        alpha = c.alpha;
      }

  -- `Update`.
  unfoldable pub smoothed : SloController → fl.F → fl.F → fl.F
  smoothed sc new old = fl.add (fl.mul sc.alpha new) (fl.mul (fl.sub fl.f1 sc.alpha) old)

  unfoldable pub update : fl.F → fl.F → fl.F → SloController → SloController
  update rtt loss jitter sc = record sc {
    rtt_ema = smoothed sc rtt sc.rtt_ema;
    loss_ema = smoothed sc loss sc.loss_ema;
    jitter_ema = smoothed sc jitter sc.jitter_ema;
  }

  -- `RecordSwitch`.
  unfoldable pub record_switch : Time → SloController → SloController
  record_switch now sc = record sc { last_switch = now }

  -- `calculateCost`.
  unfoldable pub calculate_cost : PathMetrics → fl.F
  calculate_cost p = fl.add (fl.add (fl.of_ms p.rtt) (fl.mul p.loss fl.f1000)) (fl.of_ms p.jitter)

  -- `getCurrentPenalty`.
  unfoldable pub get_current_penalty : Time → SloController → fl.F
  get_current_penalty now sc =
      let elapsed = since now sc.last_switch in
      if ltb_ℤ elapsed sc.switch_penalty
      then fl.mul
          (fl.sub fl.f1 (fl.div (fl.of_duration elapsed) (fl.of_duration sc.switch_penalty))) fl.f50
      else fl.f0

  -- `calculateImprovement`, in percent.
  unfoldable pub calculate_improvement : Time → SloController → PathMetrics → PathMetrics → fl.F
  calculate_improvement now sc current candidate =
      let cost = calculate_cost current in
      let candidate_cost = fl.add (calculate_cost candidate) (get_current_penalty now sc) in
      if fl.is_zero cost then fl.f0 else fl.mul (fl.div (fl.sub cost candidate_cost) cost) fl.f100

  -- `ShouldSwitch`, with the three readings of the clock in their order.
  unfoldable pub should_switch :
      Time → Time → Time → SloController → PathMetrics → PathMetrics → Bool
  should_switch t1 t2 t3 sc current candidate =
      if ltb_ℤ (since t1 sc.last_switch) sc.min_dwell
      then false
      else if fl.less (calculate_improvement t2 sc current candidate)
          (fl.div sc.hysteresis_threshold fl.f100)
      then false
      else if fl.less fl.f0 (get_current_penalty t3 sc)
      then false
      else true

  -- `GetCurrentMetrics`.
  unfoldable pub get_current_metrics : SloController → PathMetrics
  get_current_metrics sc = record {
    rtt = mul64 (fl.truncated sc.rtt_ema) millisecond;
    loss = sc.loss_ema;
    jitter = mul64 (fl.truncated sc.jitter_ema) millisecond;
  }

  -- `calculateSLIScore`.
  abbrev lowered : Bool → fl.F → fl.F → fl.F
  lowered b by score = if b then fl.sub score by else score

  unfoldable pub calculate_sli_score : PathMetrics → fl.F
  calculate_sli_score p =
      let score = lowered (ltb_ℤ (pos (25 * millisecond)) p.jitter) fl.f0_2 (
        lowered (fl.less fl.f0_01 p.loss) fl.f0_3
          (lowered (ltb_ℤ (pos (120 * millisecond)) p.rtt) fl.f0_3 fl.f1)) in
      if fl.less score fl.f0 then fl.f0 else score

  -- `GetSLIStatus`.
  unfoldable pub get_sli_status : SloController → SliStatus
  get_sli_status sc =
      let metrics = get_current_metrics sc in
      let score = calculate_sli_score metrics in
      record { metrics = metrics; score = score; healthy = fl.less fl.f0_8 score }
