-- ===== src/Runs/Scenarios.antt =====
-- The scenario engine over a counting source in place of Go's generator.
use go_smsc_simulator.Common.{
  ℕ, ◌+◌, ◌*◌, ◌%◌, ◌≤◌, ◌<◌, ◌≡◌, ◌≢◌, refl, arith, true, List, [], ◌∷◌, none, some, leb, bytes_eq,
}
use mathlib.Core.Logic.{◌↔◌}
use native.Mathlib.Nat.{mod-lt}
use go_smsc_simulator.Smpp.Commands.{status_rok}
use go_smsc_simulator.Smpp.Encode.{bad_length, unknown_cmd_id}
use go_smsc_simulator.Config.Enums.{
  flaky_carrier, fixed, error_code_rthrottled, error_code_rsyserr, SmppErrorCode, valid_error,
  valid_code,
}
use go_smsc_simulator.Config.Enums.{profile_eq}
use go_smsc_simulator.Config.Schema.{ScenarioConfig, DlrOutcomeWeights}
use go_smsc_simulator.Rng.{Rand}
use go_smsc_simulator.Fault.{WallWindow}
use go_smsc_simulator.Scenario.Mix.{
  dlr_delivered, dlr_expired, build_dlr_mix, flatten_weights, total_weight, select,
}
use go_smsc_simulator.Scenario.Mix.Pick.{offset_of, weight_of, select-build_dlr_mix}
use go_smsc_simulator.Scenario.Engine.{
  outcome_error, Engine, BindState, new, base_engine, with_dlr, with_edge_cases,
}
use go_smsc_simulator.Scenario.Evaluate.{
  evaluate, evaluate_outcome, evaluate_profile, evaluate_flaky, flaky_outcome, overlay, plan_dlr,
}
use go_smsc_simulator.Scenario.Evaluate.Draws.{evaluate_error_status}

pub counted-lt : (n s : ℕ) → 0 < n → s % n < n
counted-lt n s h = mod-lt s h

-- A source is a counter, a float an integer.
abbrev pub counting : Rand
counting = record {
  Source = ℕ;
  Float = ℕ;
  new_pcg = λ lo hi. lo + hi;
  uint64_n = λ n s. (s % n, s + 1);
  uint64_n-lt = counted-lt;
  float64 = λ s. (s % 2, s + 1);
  norm_float64 = λ s. (s % 3, s + 1);
  one = 1;
  at_least = λ x y. leb y x;
  not_positive = λ x. leb x 0;
  of_uint64 = λ x. x;
  plus = λ x y. x + y;
  times = λ x y. x * y;
  round = λ x. x;
}

abbrev codes_of_mix : List SmppErrorCode
codes_of_mix = error_code_rthrottled ∷ error_code_rsyserr ∷ []

abbrev config : ScenarioConfig ℕ
config = record {
  profile = flaky_carrier;
  params = record {
    success_rate = some 1;
    error_mix = some (record { keys = codes_of_mix; weight = λ c. 1 });
    disconnect_interval_ticks = none;
    throughput_cap_per_sec = none;
    error_code = none;
    mode = none;
  };
  latency = record {
    distribution = fixed;
    params = record {
      ms = some 5;
      min_ms = none;
      max_ms = none;
      mean_ms = none;
      stddev_ms = none;
      base_ms = none;
      spike_ms = none;
      interval_ticks = none;
    };
  };
  dlr = none;
  protocol_edge_cases_enabled = true;
  protocol_edge_cases = none;
}

abbrev engine : Engine ℕ
engine = record {
  profile = config.profile;
  params = config.params;
  latency = config.latency;
  error_mix = [];
  limit_per_sec = none;
  dlr_enabled = true;
  dlr_mix = [];
  dlr_delay_ticks = 3;
  edge_enabled = true;
  edge_every_ticks = 10;
  edge_kinds = bad_length ∷ unknown_cmd_id ∷ [];
}

abbrev full_gate : WallWindow
full_gate = record { cap_per_sec = 1; window_start = some 5; count = 1 }

abbrev state : BindState ℕ
state = record { rng = 1; sched_base = 0; gate = none }

abbrev gated : BindState ℕ
gated = record { rng = 1; sched_base = 0; gate = some full_gate }

config_fails : (evaluate counting (new config none) state 1 6).0.outcome ≡ outcome_error
unfolding evaluate evaluate_outcome evaluate_profile evaluate_flaky flaky_outcome overlay plan_dlr
    new base_engine with_dlr with_edge_cases profile_eq
config_fails = refl

evaluate_error_status_example :
    (evaluate counting (new config none) state 1 6).0.status ≢ status_rok
unfolding valid_error valid_code bytes_eq
evaluate_error_status_example =
    evaluate_error_status counting config none state 1 6 (refl, (refl, tt)) tt config_fails

abbrev weights : DlrOutcomeWeights
weights = record { delivered = 5; failed = 0; expired = 2 }

select-build_dlr_mix_example :
    (total_weight (build_dlr_mix weights) ≡ 7)
    × ((select dlr_delivered (build_dlr_mix weights) 6 ≡ dlr_expired) ↔ (
        (offset_of weights dlr_expired ≤ 6)
        × (6 < offset_of weights dlr_expired + weight_of weights dlr_expired)))
unfolding build_dlr_mix flatten_weights total_weight
select-build_dlr_mix_example =
    select-build_dlr_mix weights dlr_expired dlr_delivered 6 (omega arith) (omega arith)
