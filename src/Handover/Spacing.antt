-- ===== src/Handover/Spacing.antt =====
-- pkg/handover/manager.go: how far apart two switches are.
use cloudbridge_client.Prelude.{◌≡◌, ◌⊎◌, arith, true}
use cloudbridge_client.Prelude.Int.{pos, ◌≤ℤ◌}
use cloudbridge_client.Prelude.Time.{Time, since}
use cloudbridge_client.Handover.{Manager, PathSli, Float64, record_switch, should_switch}

-- After a recorded switch no switch is advised before the minimal interval is over, if there is one,
-- whatever the two paths cost.
should_switch_spaced :
    (fl : Float64) (then' now : Time) (old new : PathSli fl.F) (hm : Manager)
    → should_switch fl now old new (record_switch then' hm) ≡ true
    → (hm.min_interval ≤ℤ pos 0) ⊎ (hm.min_interval ≤ℤ since now then')
unfolding should_switch record_switch
should_switch_spaced fl then' now old new hm h = ground arith
