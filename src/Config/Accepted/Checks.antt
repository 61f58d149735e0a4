-- ===== src/Config/Accepted/Checks.antt =====
-- internal/config/validate.go: the checks that an accepted scenario of a known profile has passed.
use go_smsc_simulator.Common.{◌≡◌, subst, List, [], ◌++◌, Option, none, some}
use go_smsc_simulator.Rng.{Rand}
use go_smsc_simulator.Config.Schema.{ScenarioConfig}
use go_smsc_simulator.Config.Profiles.{ProfileSpec, profile_catalogue}
use go_smsc_simulator.Config.Faults.{Fault, fault, unknown_profile, clean_both}
use go_smsc_simulator.Config.Validate.{
  validate_scenario_params, validate_latency, validate_dlr, validate_edge_cases,
}
use go_smsc_simulator.Config.Topology.{validate_scenario}

module _ (R : Rand) where
  open R use {Float}

  abbrev checks_of : ScenarioConfig Float → Option ProfileSpec → List Fault
  checks_of cfg none = fault unknown_profile "scenario.profile"
  checks_of cfg (some spec) =
      validate_scenario_params R cfg.params spec
      ++ (validate_latency cfg.latency spec
          ++ (validate_dlr cfg.dlr
              ++ validate_edge_cases cfg.protocol_edge_cases_enabled cfg.protocol_edge_cases))

  pub scenario_checks :
      (cfg : ScenarioConfig Float) (spec : ProfileSpec)
      → profile_catalogue cfg.profile ≡ some spec
      → validate_scenario R cfg ≡ []
      → (validate_scenario_params R cfg.params spec ≡ [])
        × (validate_latency cfg.latency spec ≡ [])
        × (validate_dlr cfg.dlr ≡ [])
        × (validate_edge_cases cfg.protocol_edge_cases_enabled cfg.protocol_edge_cases ≡ [])
  unfolding validate_scenario
  scenario_checks cfg spec known h =
      let checks : checks_of cfg (some spec) ≡ [] = subst (λ o. checks_of cfg o ≡ []) known h in
      let (params, rest) = clean_both checks in
      let (latency, rest') = clean_both rest in
      let (dlr, edges) = clean_both rest' in (params, latency, dlr, edges)
