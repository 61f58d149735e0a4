-- ===== src/Scenario/Mix/Pick.antt =====
-- What a draw below the total selects.
use go_smsc_simulator.Common.{ℕ, ◌+◌, ◌^◌, ◌≤◌, ◌<◌, ◌≡◌, ◌↔◌, arith}
use go_smsc_simulator.Config.Schema.{DlrOutcomeWeights}
use go_smsc_simulator.Scenario.Mix.{
  DlrOutcome, dlr_delivered, dlr_failed, dlr_expired, flatten_weights, build_dlr_mix, total_weight,
  select,
}

-- The weight of each outcome.
pub weight_of : DlrOutcomeWeights → DlrOutcome → ℕ
weight_of w dlr_delivered = w.delivered
weight_of w dlr_failed = w.failed
weight_of w dlr_expired = w.expired

-- The part of the interval [0, total) that an outcome takes: it begins behind the outcomes before.
pub offset_of : DlrOutcomeWeights → DlrOutcome → ℕ
offset_of w dlr_delivered = 0
offset_of w dlr_failed = w.delivered
offset_of w dlr_expired = w.delivered + w.failed

-- With weights whose sum is below 2^64, so that it does not wrap: the total is that sum, and a draw
-- below it selects an outcome exactly when it falls into that outcome's part, which is as long as
-- its weight.
pub select-build_dlr_mix :
    (w : DlrOutcomeWeights) (o unmatched : DlrOutcome) (n : ℕ)
    → w.delivered + w.failed + w.expired < 2 ^ 64
    → n < total_weight (build_dlr_mix w)
    → (total_weight (build_dlr_mix w) ≡ w.delivered + w.failed + w.expired)
      × ((select unmatched (build_dlr_mix w) n ≡ o)
          ↔ ((offset_of w o ≤ n) × (n < offset_of w o + weight_of w o)))
unfolding build_dlr_mix flatten_weights total_weight select weight_of offset_of
select-build_dlr_mix w dlr_delivered unmatched n h k = ground arith
select-build_dlr_mix w dlr_failed unmatched n h k = ground arith
select-build_dlr_mix w dlr_expired unmatched n h k = ground arith
