-- ===== src/Runs/Configs.antt =====
-- A topology that validation accepts: a slow carrier with receipts.
use go_smsc_simulator.Common.{
  arith, ℕ, pos, ◌≡◌, ◌≤◌, ◌<◌, refl, true, false, [], ◌∷◌, All, none, some, codes,
}
use go_smsc_simulator.Config.Enums.{
  scheduled, valid_mo_mode, profile_eq, valid_scope, valid_when, valid_distribution, slow_carrier,
  fixed, all, before_response, clock_logical,
}
use go_smsc_simulator.Config.Schema.{
  MoEvent, MoInjectionConfig, ScenarioConfig, DlrConfig, VirtualSmscConfig, Config,
}
use go_smsc_simulator.Config.Profiles.{ProfileSpec, profile_catalogue}
use go_smsc_simulator.Config.Validate.{
  validate_scenario_params, set_param_knobs, validate_latency, validate_latency_params,
  unused_latency_knobs, missing_latency_knobs, misplaced_latency_knobs, set_latency_knobs,
  latency_required_knobs, validate_dlr, validate_clock, validate_delay, validate_weights,
  weights_loop, validate_edge_cases,
}
use go_smsc_simulator.Config.Topology.{
  validate_mo_mode, validate_mo_event, ports_loop, validate_numbers, validate_seed, validate_tls,
  validate_mo_injection, validate_scheduled_disconnect, Host, validate, validate_virtual_smsc,
  validate_scenario, observability_port,
}
use go_smsc_simulator.Config.Accepted.Ports.{Free, Distinct, InRange, ports_of, validate_ports}
use go_smsc_simulator.Config.Accepted.Latency.{InWindow, evaluate-InWindow}
use go_smsc_simulator.Config.Accepted.Injection.{MoArrives, mo_injection-arrives}
use go_smsc_simulator.Config.Accepted.Receipts.{evaluate-receipt}
use go_smsc_simulator.Scenario.Mix.Pick.{weight_of}
use go_smsc_simulator.Scenario.Engine.{
  outcome_success, new, BindState, DlrPlan, base_engine, with_dlr, with_edge_cases,
}
use go_smsc_simulator.Scenario.Mix.{
  dlr_delivered, build_dlr_mix, flatten_weights, total_weight, select,
}
use go_smsc_simulator.Fault.{latency_ms, latency_of}
use go_smsc_simulator.Scenario.Evaluate.{
  evaluate, evaluate_outcome, evaluate_profile, plan_dlr, pick_dlr_outcome, pick,
}
use go_smsc_simulator.Runs.Scenarios.{counting}

abbrev pub host : Host
host = record { compiles = λ s. true; is_present = λ s. false }

abbrev pub receipts : DlrConfig
receipts = record {
  delay = record { distribution = fixed; ticks = some 2; min_ticks = none; max_ticks = none };
  outcome_weights = record { delivered = 8; failed = 1; expired = 0 };
  clock = clock_logical;
}

abbrev pub scenario : ScenarioConfig ℕ
scenario = record {
  profile = slow_carrier;
  params = record {
    success_rate = none;
    error_mix = none;
    disconnect_interval_ticks = none;
    throughput_cap_per_sec = none;
    error_code = none;
    mode = none;
  };
  latency = record {
    distribution = fixed;
    params = record {
      ms = some 3000;
      min_ms = none;
      max_ms = none;
      mean_ms = none;
      stddev_ms = none;
      base_ms = none;
      spike_ms = none;
      interval_ticks = none;
    };
  };
  dlr = some receipts;
  protocol_edge_cases_enabled = false;
  protocol_edge_cases = none;
}

abbrev pub carrier : ℕ → VirtualSmscConfig ℕ
carrier port = record {
  name = codes "slow";
  port = pos port;
  addr_ton = pos 1;
  addr_npi = pos 1;
  address_range = [];
  tls = record { enabled = false; cert_file = []; key_file = [] };
  bind_credentials = record { system_id = codes "id"; password = codes "pw" };
  seed = some 7;
  pdu_buffer_size = 4;
  throughput_limit_per_sec = none;
  quiescence_flush_ms = none;
  scenario = scenario;
  mo_injection = none;
  scheduled_disconnects = record { at_tick = 1; scope = all; fires = before_response } ∷ [];
  scheduled_transitions = [];
}

abbrev pub topology : Config ℕ
topology = record {
  observability = some (record { http_port = pos 8080 });
  virtual_smscs = carrier 2775 ∷ carrier 2776 ∷ [];
}

scenario_accepted : validate_scenario counting scenario ≡ []
unfolding validate_scenario validate_scenario_params set_param_knobs profile_catalogue
    validate_latency validate_latency_params unused_latency_knobs missing_latency_knobs
    misplaced_latency_knobs set_latency_knobs latency_required_knobs valid_distribution validate_dlr
    validate_clock validate_delay validate_weights weights_loop validate_edge_cases
scenario_accepted = refl

pub carrier_accepted : validate_virtual_smsc counting host (carrier 2775) ≡ []
unfolding validate_virtual_smsc validate_numbers validate_seed validate_tls validate_mo_injection
    validate_scheduled_disconnect valid_scope valid_when validate_scenario validate_scenario_params
    set_param_knobs profile_catalogue validate_latency validate_latency_params unused_latency_knobs
    missing_latency_knobs misplaced_latency_knobs set_latency_knobs latency_required_knobs
    valid_distribution validate_dlr validate_clock validate_delay validate_weights weights_loop
    validate_edge_cases
carrier_accepted = refl

pub topology_accepted : validate counting host topology ≡ []
unfolding validate ports_loop validate_virtual_smsc validate_numbers validate_seed validate_tls
    validate_mo_injection validate_scheduled_disconnect valid_scope valid_when validate_scenario
    validate_scenario_params set_param_knobs profile_catalogue validate_latency
    validate_latency_params unused_latency_knobs missing_latency_knobs misplaced_latency_knobs
    set_latency_knobs latency_required_knobs valid_distribution validate_dlr validate_clock
    validate_delay validate_weights weights_loop validate_edge_cases
topology_accepted = refl

validate_ports_example :
    Distinct (ports_of counting topology.virtual_smscs)
    × All InRange (ports_of counting topology.virtual_smscs)
    × All
        (Free (observability_port topology.observability))
        (ports_of counting topology.virtual_smscs)
validate_ports_example = validate_ports counting host topology topology_accepted

abbrev slow : ProfileSpec
slow = record { exposes = []; requires = none; latency_min_ms = 2_000; latency_max_ms = 4_000 }

slow_known : profile_catalogue slow_carrier ≡ some slow
unfolding profile_catalogue
slow_known = refl

abbrev bind : BindState ℕ
bind = record { rng = 1; sched_base = 0; gate = none }

abbrev plan : DlrPlan
plan = record { outcome = dlr_delivered; delay_ticks = 2 }

succeeds : (evaluate counting (new scenario none) bind 3 0).0.outcome ≡ outcome_success
unfolding evaluate evaluate_outcome evaluate_profile plan_dlr new base_engine with_dlr
    with_edge_cases profile_eq latency_ms latency_of
succeeds = refl

plans : (evaluate counting (new scenario none) bind 3 0).0.dlr ≡ some plan
unfolding evaluate evaluate_outcome evaluate_profile plan_dlr pick_dlr_outcome pick new base_engine
    with_dlr with_edge_cases profile_eq latency_ms latency_of build_dlr_mix flatten_weights
    total_weight select
plans = refl

evaluate-InWindow_example :
    InWindow slow (evaluate counting (new scenario none) bind 3 0).0.latency_ms
evaluate-InWindow_example =
    evaluate-InWindow counting scenario slow none bind 3 0 scenario_accepted slow_known refl
      succeeds

evaluate-receipt_example : (0 < weight_of receipts.outcome_weights dlr_delivered) × (1 ≤ 2)
evaluate-receipt_example =
    evaluate-receipt counting scenario slow receipts none bind 3 0 plan scenario_accepted slow_known
      refl plans

abbrev message_event : MoEvent
message_event = record {
  at_tick = 3;
  source_addr = codes "33";
  dest_addr = codes "44";
  content = codes "stop";
}

abbrev injection : MoInjectionConfig
injection = record {
  mode = scheduled;
  clock = clock_logical;
  events = message_event ∷ [];
  rate_per_sec = none;
  content_template = none;
}

injection_accepted : validate_mo_injection (some injection) ≡ []
unfolding validate_mo_injection validate_mo_mode validate_mo_event valid_mo_mode validate_clock
injection_accepted = refl

mo_injection-arrives_example : All MoArrives (message_event ∷ [])
mo_injection-arrives_example =
    mo_injection-arrives injection injection_accepted
      (record { source_addr = ground arith; dest_addr = ground arith; content = ground arith }, tt)
