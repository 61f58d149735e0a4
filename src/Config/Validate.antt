-- ===== src/Config/Validate.antt =====
-- internal/config/validate.go: the checks of one virtual SMSC's blocks. A float is the parameter's.
use go_smsc_simulator.Common.{
  ℕ, ◌+◌, ◌%◌, ◌^◌, ltb, ◌==◌, Bool, true, false, not, ◌&&◌, ◌||◌, List, [], ◌∷◌, ◌++◌, length, map,
  if◌then◌else◌, Option, none, some,
}
use go_smsc_simulator.Rng.{Rand}
use go_smsc_simulator.Config.Enums.{
  LatencyDistribution, fixed, uniform, normal, spike, other_distribution, valid_distribution,
  valid_error, valid_dead_carrier_mode, valid_edge_case, Clock, clock_logical, clock_wallclock,
  other_clock,
}
use go_smsc_simulator.Config.Schema.{
  ErrorMix, ScenarioParams, LatencyConfig, LatencyParams, DlrDelay, DlrConfig,
  ProtocolEdgeCasesConfig,
}
use go_smsc_simulator.Config.Profiles.{
  Knob, knob_success_rate, knob_error_mix, knob_disconnect_interval_ticks,
  knob_throughput_cap_per_sec, knob_error_code, knob_mode, has_knob, throughput_cap_min,
  throughput_cap_max, weight_max, ProfileSpec,
}
use go_smsc_simulator.Config.Faults.{
  Fault, fault, fault_if, if_set, each, param_out_of_bounds, param_not_exposed, missing_param,
  invalid_enum,
}
use go_smsc_simulator.Scenario.Mix.{sort_codes}
use Prim.Native.String.{String}

-- The loop of `validateWeights`, over a uint sum.
unfoldable pub weights_loop : String → ℕ → List ℕ → List Fault
weights_loop field sum [] = fault_if (sum == 0) param_out_of_bounds field
weights_loop field sum (w ∷ ws) =
    let rest = weights_loop field ((sum + w) % 2 ^ 64) ws in
    if ltb weight_max w then fault param_out_of_bounds field else rest

unfoldable pub validate_weights : String → List ℕ → List Fault
unfolding weights_loop
validate_weights field weights = weights_loop field 0 weights

-- The empty string is the omitted clock.
unfoldable pub validate_clock : String → Clock → List Fault
validate_clock field clock_logical = []
validate_clock field clock_wallclock = fault invalid_enum field
validate_clock field (other_clock s) = fault_if (not (length s == 0)) invalid_enum field

abbrev pub knob_if {ℓ} : {A : Type ℓ} → Option A → Knob → List Knob
knob_if none k = []
knob_if (some a) k = k ∷ []

unfoldable pub set_param_knobs : {F : Type 0} → ScenarioParams F → List Knob
set_param_knobs p =
    knob_if p.success_rate knob_success_rate
    ++ (knob_if p.error_mix knob_error_mix
        ++ (knob_if p.disconnect_interval_ticks knob_disconnect_interval_ticks
            ++ (knob_if p.throughput_cap_per_sec knob_throughput_cap_per_sec
                ++ (knob_if p.error_code knob_error_code ++ knob_if p.mode knob_mode))))

-- The check of an error mix that the profile exposes.
unfoldable pub validate_error_mix : ErrorMix → List Fault
unfolding validate_weights
validate_error_mix mix =
    each (sort_codes mix.keys)
      (λ c. fault_if (not (valid_error c)) invalid_enum "scenario.params.error_mix key")
    ++ validate_weights "scenario.params.error_mix" (map mix.weight mix.keys)

abbrev pub out_of_range : ℕ → ℕ → ℕ → Bool
out_of_range lo hi n = ltb n lo || ltb hi n

module _ (R : Rand) where
  open R use {Float, one, at_least, of_uint64}

  -- `!(x >= 0 && x <= 1)`, which holds of a NaN.
  unfoldable pub bad_rate : Float → Bool
  bad_rate x = not (at_least x (of_uint64 0) && at_least one x)

  unfoldable pub validate_scenario_params : ScenarioParams Float → ProfileSpec → List Fault
  unfolding set_param_knobs
  validate_scenario_params p spec =
      each (set_param_knobs p)
        (λ k. fault_if (not (has_knob k spec.exposes)) param_not_exposed "scenario.params")
      ++ (if_set spec.requires
            (λ k. fault_if (not (has_knob k (set_param_knobs p))) missing_param "scenario.params")
          ++ (if_set p.success_rate (λ x.
                fault_if (has_knob knob_success_rate spec.exposes && bad_rate x) param_out_of_bounds
                  "scenario.params.success_rate")
              ++ (if_set p.throughput_cap_per_sec (λ n.
                    fault_if
                      (has_knob knob_throughput_cap_per_sec spec.exposes
                        && out_of_range throughput_cap_min throughput_cap_max n)
                      param_out_of_bounds "scenario.params.throughput_cap_per_sec")
                  ++ (if_set p.disconnect_interval_ticks (λ n.
                        fault_if (has_knob knob_disconnect_interval_ticks spec.exposes && ltb n 1)
                          param_out_of_bounds "scenario.params.disconnect_interval_ticks")
                      ++ (if_set p.error_code (λ c.
                            fault_if (has_knob knob_error_code spec.exposes && not (valid_error c))
                              invalid_enum "scenario.params.error_code")
                          ++ (if_set p.mode (λ m.
                                fault_if
                                  (has_knob knob_mode spec.exposes
                                    && not (valid_dead_carrier_mode m))
                                  invalid_enum "scenario.params.mode")
                              ++ if_set p.error_mix (λ mix.
                                if has_knob knob_error_mix spec.exposes
                                then validate_error_mix mix
                                else [])))))))

pub data LatencyKnob : Type 0 where
  lat_ms lat_min_ms lat_max_ms lat_mean_ms lat_stddev_ms lat_base_ms lat_spike_ms
        lat_interval_ticks :
      LatencyKnob

-- The map of the set knobs.
unfoldable pub set_latency_knobs : LatencyParams → LatencyKnob → Option ℕ
set_latency_knobs p lat_ms = p.ms
set_latency_knobs p lat_min_ms = p.min_ms
set_latency_knobs p lat_max_ms = p.max_ms
set_latency_knobs p lat_mean_ms = p.mean_ms
set_latency_knobs p lat_stddev_ms = p.stddev_ms
set_latency_knobs p lat_base_ms = p.base_ms
set_latency_knobs p lat_spike_ms = p.spike_ms
set_latency_knobs p lat_interval_ticks = p.interval_ticks

unfoldable pub latency_required_knobs : LatencyDistribution → List LatencyKnob
latency_required_knobs fixed = lat_ms ∷ []
latency_required_knobs uniform = lat_min_ms ∷ lat_max_ms ∷ []
latency_required_knobs normal = lat_mean_ms ∷ lat_stddev_ms ∷ []
latency_required_knobs spike = lat_base_ms ∷ lat_spike_ms ∷ lat_interval_ticks ∷ []
latency_required_knobs (other_distribution s) = []

abbrev latency_index : LatencyKnob → ℕ
latency_index lat_ms = 0
latency_index lat_min_ms = 1
latency_index lat_max_ms = 2
latency_index lat_mean_ms = 3
latency_index lat_stddev_ms = 4
latency_index lat_base_ms = 5
latency_index lat_spike_ms = 6
latency_index lat_interval_ticks = 7

abbrev pub has_latency_knob : LatencyKnob → List LatencyKnob → Bool
has_latency_knob k [] = false
has_latency_knob k (j ∷ js) = latency_index k == latency_index j || has_latency_knob k js

-- `slices.Sorted` of the knobs' names.
abbrev pub sorted_latency_knobs : List LatencyKnob
sorted_latency_knobs =
    lat_base_ms ∷ lat_interval_ticks ∷ lat_max_ms ∷ lat_mean_ms ∷ lat_min_ms ∷ lat_ms ∷ lat_spike_ms
    ∷ lat_stddev_ms ∷ []

abbrev pub position_knobs : List LatencyKnob
position_knobs = lat_ms ∷ lat_min_ms ∷ lat_max_ms ∷ lat_mean_ms ∷ lat_base_ms ∷ lat_spike_ms ∷ []

abbrev pub is_none {ℓ} : {A : Type ℓ} → Option A → Bool
is_none none = true
is_none (some a) = false

-- A knob that the distribution does not use, one that it needs and that is absent, and a position
-- outside the profile's bounds.
unfoldable pub unused_latency_knobs : LatencyDistribution → LatencyParams → List Fault
unfolding set_latency_knobs latency_required_knobs
unused_latency_knobs d p = each sorted_latency_knobs (λ k. if_set (set_latency_knobs p k) (λ v.
    fault_if (not (has_latency_knob k (latency_required_knobs d))) param_not_exposed
      "scenario.latency.params"))

unfoldable pub missing_latency_knobs : LatencyDistribution → LatencyParams → List Fault
unfolding set_latency_knobs latency_required_knobs
missing_latency_knobs d p =
    each (latency_required_knobs d)
      (λ k. fault_if (is_none (set_latency_knobs p k)) missing_param "scenario.latency.params")

unfoldable pub misplaced_latency_knobs : LatencyParams → ProfileSpec → List Fault
unfolding set_latency_knobs
misplaced_latency_knobs p spec = each position_knobs (λ k. if_set (set_latency_knobs p k) (λ v.
    fault_if (out_of_range spec.latency_min_ms spec.latency_max_ms v) param_out_of_bounds
      "scenario.latency.params"))

-- The checks behind the guard on the distribution.
unfoldable pub validate_latency_params :
    LatencyDistribution → LatencyParams → ProfileSpec → List Fault
unfolding unused_latency_knobs missing_latency_knobs misplaced_latency_knobs
validate_latency_params d p spec =
    unused_latency_knobs d p
    ++ (missing_latency_knobs d p
        ++ (misplaced_latency_knobs p spec
            ++ (if_set p.min_ms (λ lo.
                  if_set p.max_ms (λ hi.
                    fault_if (ltb hi lo) param_out_of_bounds "scenario.latency.params.min_ms"))
                ++ (if_set p.stddev_ms (λ v.
                      fault_if (ltb spec.latency_max_ms v) param_out_of_bounds
                        "scenario.latency.params.stddev_ms")
                    ++ if_set p.interval_ticks (λ v.
                      fault_if (ltb v 1) param_out_of_bounds
                        "scenario.latency.params.interval_ticks")))))

unfoldable pub validate_latency : LatencyConfig → ProfileSpec → List Fault
unfolding validate_latency_params
validate_latency lat spec =
    if not (valid_distribution lat.distribution)
    then fault invalid_enum "scenario.latency.distribution"
    else validate_latency_params lat.distribution lat.params spec

abbrev is_fixed : LatencyDistribution → Bool
is_fixed fixed = true
is_fixed d = false

-- The switch on the delay.
unfoldable pub validate_delay : DlrDelay → List Fault
validate_delay delay =
    if not (is_fixed delay.distribution)
    then fault invalid_enum "scenario.dlr.delay.distribution"
    else elim delay.ticks [
      | none ↦ fault missing_param "scenario.dlr.delay.ticks"
      | some n ↦ fault_if (ltb n 1) param_out_of_bounds "scenario.dlr.delay.ticks"
    ]

unfoldable pub validate_dlr : Option DlrConfig → List Fault
unfolding validate_delay validate_weights validate_clock
validate_dlr none = []
validate_dlr (some dlr) =
    validate_clock "scenario.dlr.clock" dlr.clock
    ++ (validate_delay dlr.delay
        ++ (if_set dlr.delay.min_ticks (λ n. fault param_not_exposed "scenario.dlr.delay.min_ticks")
            ++ (if_set dlr.delay.max_ticks
                  (λ n. fault param_not_exposed "scenario.dlr.delay.max_ticks")
                ++ validate_weights "scenario.dlr.outcome_weights" (
                    dlr.outcome_weights.delivered ∷ dlr.outcome_weights.failed
                    ∷ dlr.outcome_weights.expired ∷ []))))

unfoldable pub validate_edge_cases : Bool → Option ProtocolEdgeCasesConfig → List Fault
validate_edge_cases enabled none = []
validate_edge_cases false (some ec) = fault param_not_exposed "scenario.protocol_edge_cases"
validate_edge_cases true (some ec) =
    if_set ec.inject_every_ticks (λ t.
      fault_if (ltb t 1) param_out_of_bounds "scenario.protocol_edge_cases.inject_every_ticks")
    ++ each ec.kinds
        (λ k. fault_if (not (valid_edge_case k)) invalid_enum "scenario.protocol_edge_cases.kinds")
