-- ===== src/Config/Topology.antt =====
-- internal/config/validate.go: the checks of a virtual SMSC and of the whole topology. What the
-- host answers, regexp.Compile and os.Stat, is a parameter.
use go_smsc_simulator.Common.{
  ℤ, ℕ, ltb, ◌==◌, is_below, is_above, eq_int, Bool, true, false, not, ◌&&◌, ◌||◌, List, [], ◌∷◌,
  ◌++◌, length, if◌then◌else◌, Option, none, some,
}
use go_smsc_simulator.Rng.{Rand}
use go_smsc_simulator.Config.Enums.{
  Profile, throttling_carrier, throughput_capped, profile_eq, valid_profile, MoMode, scheduled,
  auto, disabled, other_mode, valid_mo_mode, valid_scope, valid_when,
}
use go_smsc_simulator.Config.Schema.{
  TlsConfig, ScenarioConfig, MoEvent, MoInjectionConfig, ScheduledDisconnect, VirtualSmscConfig,
  ObservabilityConfig, Config,
}
use go_smsc_simulator.Config.Profiles.{
  profile_catalogue, mo_addr_max_len, mo_content_max_len, port_min, port_max, octet_max,
  pdu_buffer_size_min, pdu_buffer_size_max, quiescence_flush_min_ms, quiescence_flush_max_ms,
}
use go_smsc_simulator.Config.Faults.{
  Fault, fault, fault_if, if_set, each, unknown_profile, seeded_throughput_limit, duplicate_port,
  param_out_of_bounds, unknown_to_profile, param_not_exposed, missing_param, invalid_enum,
  invalid_address_range, tls_cert_key_mismatch, tls_cert_not_found, tls_cert_without_enabled,
}
use go_smsc_simulator.Config.Validate.{
  validate_scenario_params, validate_latency, validate_dlr, validate_edge_cases, validate_clock,
}

pub record Host : Type 0 where
  pub compiles : List ℕ → Bool
  pub is_present : List ℕ → Bool

abbrev is_empty : List ℕ → Bool
is_empty s = length s == 0

unfoldable pub validate_tls : Host → TlsConfig → List Fault
validate_tls host tls =
    let cert_set = not (is_empty tls.cert_file) in
    let key_set = not (is_empty tls.key_file) in
    if cert_set && not key_set || not cert_set && key_set
    then fault tls_cert_key_mismatch "tls"
    else if not cert_set
    then []
    else fault_if (not tls.enabled) tls_cert_without_enabled "tls"
      ++ (fault_if (not (host.is_present tls.cert_file)) tls_cert_not_found "tls.cert_file"
          ++ fault_if (not (host.is_present tls.key_file)) tls_cert_not_found "tls.key_file")

-- The events go on the wire verbatim.
unfoldable pub validate_mo_event : MoEvent → List Fault
validate_mo_event ev =
    fault_if (ltb mo_addr_max_len (length ev.source_addr)) param_out_of_bounds
      "mo_injection.events.source_addr"
    ++ (fault_if (ltb mo_addr_max_len (length ev.dest_addr)) param_out_of_bounds
          "mo_injection.events.dest_addr"
        ++ fault_if (ltb mo_content_max_len (length ev.content)) param_out_of_bounds
            "mo_injection.events.content")

-- The switch on a valid mode.
unfoldable pub validate_mo_mode : MoMode → MoInjectionConfig → List Fault
unfolding validate_mo_event
validate_mo_mode scheduled mo =
    fault_if (length mo.events == 0) missing_param "mo_injection.events"
    ++ (if_set mo.rate_per_sec (λ r. fault param_not_exposed "mo_injection.rate_per_sec")
        ++ (if_set mo.content_template
              (λ t. fault param_not_exposed "mo_injection.content_template")
            ++ each mo.events validate_mo_event))
validate_mo_mode auto mo = fault invalid_enum "mo_injection.mode"
validate_mo_mode disabled mo =
    if_set mo.rate_per_sec (λ r. fault param_not_exposed "mo_injection.rate_per_sec")
    ++ (if_set mo.content_template (λ t. fault param_not_exposed "mo_injection.content_template")
        ++ fault_if (ltb 0 (length mo.events)) param_not_exposed "mo_injection.events")
validate_mo_mode (other_mode s) mo = []

unfoldable pub validate_mo_injection : Option MoInjectionConfig → List Fault
unfolding validate_mo_mode validate_clock
validate_mo_injection none = []
validate_mo_injection (some mo) =
    if not (valid_mo_mode mo.mode)
    then fault invalid_enum "mo_injection.mode"
    else validate_clock "mo_injection.clock" mo.clock ++ validate_mo_mode mo.mode mo

unfoldable pub validate_scheduled_disconnect : ScheduledDisconnect → List Fault
validate_scheduled_disconnect d =
    fault_if (not (valid_scope d.scope)) invalid_enum "scheduled_disconnects.scope"
    ++ fault_if (not (valid_when d.fires)) invalid_enum "scheduled_disconnects.when"

abbrev pub throughput_exempt : Profile → Bool
throughput_exempt p = profile_eq p throttling_carrier || profile_eq p throughput_capped

abbrev pub is_seeded : Option ℕ → Bool
is_seeded none = false
is_seeded (some n) = true

abbrev pub seen_port : ℤ → List ℤ → Bool
seen_port p [] = false
seen_port p (q ∷ qs) = eq_int p q || seen_port p qs

abbrev pub observability_port : Option ObservabilityConfig → List ℤ
observability_port none = []
observability_port (some o) = if is_above o.http_port 0 then o.http_port ∷ [] else []

module _ (R : Rand) where
  open R use {Float}

  unfoldable pub validate_scenario : ScenarioConfig Float → List Fault
  validate_scenario sc = elim (profile_catalogue sc.profile) [
    | none ↦ fault unknown_profile "scenario.profile"
    | some spec ↦
        validate_scenario_params R sc.params spec
        ++ (validate_latency sc.latency spec
            ++ (validate_dlr sc.dlr
                ++ validate_edge_cases sc.protocol_edge_cases_enabled sc.protocol_edge_cases))
  ]

  -- The checks of the numbers of a virtual SMSC.
  unfoldable pub validate_numbers : VirtualSmscConfig Float → List Fault
  validate_numbers vs =
      fault_if (length vs.name == 0) missing_param "virtual_smscs.name"
      ++ (fault_if (is_below vs.port port_min || is_above vs.port port_max) param_out_of_bounds
            "virtual_smscs.port"
          ++ (fault_if (is_below vs.addr_ton 0 || is_above vs.addr_ton octet_max)
                param_out_of_bounds "virtual_smscs.addr_ton"
              ++ (fault_if (is_below vs.addr_npi 0 || is_above vs.addr_npi octet_max)
                    param_out_of_bounds "virtual_smscs.addr_npi"
                  ++ (fault_if
                        (ltb vs.pdu_buffer_size pdu_buffer_size_min
                          || ltb pdu_buffer_size_max vs.pdu_buffer_size)
                        param_out_of_bounds "virtual_smscs.pdu_buffer_size"
                      ++ (if_set vs.throughput_limit_per_sec (λ n.
                            fault_if (ltb n 1) param_out_of_bounds
                              "virtual_smscs.throughput_limit_per_sec")
                          ++ if_set vs.quiescence_flush_ms (λ n.
                            fault_if
                              (ltb n quiescence_flush_min_ms || ltb quiescence_flush_max_ms n)
                              param_out_of_bounds "virtual_smscs.quiescence_flush_ms"))))))

  -- The checks that keep a seeded run off the wall clock.
  unfoldable pub validate_seed : VirtualSmscConfig Float → List Fault
  validate_seed vs =
      if_set vs.throughput_limit_per_sec (λ n.
        fault_if (is_seeded vs.seed && not (throughput_exempt vs.scenario.profile))
          seeded_throughput_limit "virtual_smscs.throughput_limit_per_sec")
      ++ (if is_seeded vs.seed
          then each vs.scheduled_transitions (λ t.
            fault_if (throughput_exempt t.to_profile) seeded_throughput_limit
              "scheduled_transitions.to_profile")
          else [])

  unfoldable pub validate_virtual_smsc : Host → VirtualSmscConfig Float → List Fault
  validate_virtual_smsc host vs =
      validate_numbers vs
      ++ (validate_seed vs
          ++ (fault_if (not (is_empty vs.address_range) && not (host.compiles vs.address_range))
                invalid_address_range "virtual_smscs.address_range"
              ++ (validate_tls host vs.tls
                  ++ (validate_scenario vs.scenario
                      ++ (validate_mo_injection vs.mo_injection
                          ++ (each vs.scheduled_disconnects validate_scheduled_disconnect
                              ++ each vs.scheduled_transitions (λ t.
                                fault_if (not (valid_profile t.to_profile)) unknown_to_profile
                                  "scheduled_transitions.to_profile")))))))

  -- The loop over the virtual SMSCs, with the ports that are taken.
  unfoldable pub ports_loop : Host → List ℤ → List (VirtualSmscConfig Float) → List Fault
  ports_loop host seen [] = []
  ports_loop host seen (vs ∷ rest) =
      validate_virtual_smsc host vs
      ++ (fault_if (seen_port vs.port seen) duplicate_port "virtual_smscs.port"
          ++ ports_loop host (if seen_port vs.port seen then seen else vs.port ∷ seen) rest)

  unfoldable pub validate : Host → Config Float → List Fault
  unfolding ports_loop
  validate host cfg =
      if_set cfg.observability (λ o.
        fault_if (is_below o.http_port 0 || is_above o.http_port port_max) param_out_of_bounds
          "observability.http_port")
      ++ ports_loop host (observability_port cfg.observability) cfg.virtual_smscs
