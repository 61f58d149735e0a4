-- ===== src/Config/Accepted/Latency.antt =====
-- internal/config/validate.go: the latency of an accepted scenario, and what a success is then
-- served with.
use go_smsc_simulator.Common.{
  ℕ, ◌≤◌, ◌≡◌, arith, ltb, Bool, true, false, not, List, [], All, All-map, Option, none, some,
  subst, if_both, Bool-cases, inl, inr, if◌then◌else◌,
}
use Prim.Native.String.{String}
use go_smsc_simulator.Rng.{Rand}
use go_smsc_simulator.Config.Enums.{
  Profile, healthy, flaky_carrier, throttling_carrier, dead_carrier, slow_carrier,
  throughput_capped, other_profile, LatencyDistribution, fixed, uniform, normal, spike,
  other_distribution, valid_distribution,
}
use go_smsc_simulator.Config.Schema.{LatencyParams, LatencyConfig, ScenarioConfig}
use go_smsc_simulator.Config.Profiles.{ProfileSpec, profile_catalogue, latency_ms_max}
use go_smsc_simulator.Config.Faults.{
  Fault, fault, invalid_enum, fault_if, if_set, clean_both, clean_test, clean_each, missing_param,
  param_out_of_bounds,
}
use go_smsc_simulator.Config.Validate.{
  LatencyKnob, out_of_range, is_none, missing_latency_knobs, misplaced_latency_knobs,
  validate_latency_params, validate_latency, set_latency_knobs, latency_required_knobs,
  position_knobs,
}
use go_smsc_simulator.Config.Topology.{validate_scenario}
use go_smsc_simulator.Config.Accepted.Checks.{scenario_checks}
use go_smsc_simulator.Fault.{deref, latency_of, latency_ms, spike_ms}
use go_smsc_simulator.Scenario.Engine.{
  outcome_success, Engine, BindState, new, base_engine, with_dlr, with_edge_cases,
}
use go_smsc_simulator.Scenario.Evaluate.{
  evaluate, evaluate_outcome, evaluate_profile, evaluate_flaky, flaky_outcome, overlay,
}
use go_smsc_simulator.Scenario.Evaluate.Draws.{uniform_draw_bounds}

abbrev pub InWindow : ProfileSpec → ℕ → Type 0
InWindow spec v = (spec.latency_min_ms ≤ v) × (v ≤ spec.latency_max_ms)

abbrev pub is_normal : LatencyDistribution → Bool
is_normal normal = true
is_normal d = false

-- A knob that is required and a position is set, and in the window.
in_window :
    (spec : ProfileSpec) (o : Option ℕ)
    → is_none o ≡ false
    → if_set o (λ v.
      fault_if
        (out_of_range spec.latency_min_ms spec.latency_max_ms v)
        param_out_of_bounds
        "scenario.latency.params")
      ≡ []
    → InWindow spec (deref o)
in_window spec none h k = absurd (cc h)
in_window spec (some v) h k =
    let e = clean_test _ param_out_of_bounds "scenario.latency.params" k in
    (ground arith, ground arith)

abbrev min_above_max : LatencyParams → List Fault
min_above_max p = if_set p.min_ms (λ lo.
    if_set p.max_ms
      (λ hi. fault_if (ltb hi lo) param_out_of_bounds "scenario.latency.params.min_ms"))

ordered :
    (lo hi : Option ℕ) (f : String)
    → is_none lo ≡ false
    → is_none hi ≡ false
    → if_set lo (λ a. if_set hi (λ b. fault_if (ltb b a) param_out_of_bounds f)) ≡ []
    → deref lo ≤ deref hi
ordered none hi f h k l = absurd (cc h)
ordered (some a) none f h k l = absurd (cc k)
ordered (some a) (some b) f h k l = let e = clean_test _ param_out_of_bounds f l in ground arith

abbrev Needed : LatencyParams → LatencyKnob → Type 0
Needed p k = is_none (set_latency_knobs p k) ≡ false

missing_latency_knobs-Needed :
    (d : LatencyDistribution) (p : LatencyParams)
    → missing_latency_knobs d p ≡ []
    → All (Needed p) (latency_required_knobs d)
unfolding missing_latency_knobs
missing_latency_knobs-Needed d p h =
    All-map (latency_required_knobs d)
      (λ k. clean_test (is_none (set_latency_knobs p k)) missing_param "scenario.latency.params")
      (clean_each (latency_required_knobs d)
        (λ k. fault_if (is_none (set_latency_knobs p k)) missing_param "scenario.latency.params") h)

abbrev Placed : LatencyParams → ProfileSpec → LatencyKnob → Type 0
Placed p spec k =
    if_set (set_latency_knobs p k) (λ v.
      fault_if (out_of_range spec.latency_min_ms spec.latency_max_ms v) param_out_of_bounds
        "scenario.latency.params")
    ≡ []

misplaced_latency_knobs-Placed :
    (p : LatencyParams) (spec : ProfileSpec)
    → misplaced_latency_knobs p spec ≡ []
    → All (Placed p spec) position_knobs
unfolding misplaced_latency_knobs
misplaced_latency_knobs-Placed p spec h =
    clean_each position_knobs
      (λ k. if_set (set_latency_knobs p k) (λ v.
        fault_if (out_of_range spec.latency_min_ms spec.latency_max_ms v) param_out_of_bounds
          "scenario.latency.params"))
      h

window_max :
    (p : Profile) (spec : ProfileSpec)
    → profile_catalogue p ≡ some spec
    → spec.latency_max_ms ≤ latency_ms_max
unfolding profile_catalogue
window_max healthy spec h = ground arith
window_max flaky_carrier spec h = ground arith
window_max throttling_carrier spec h = ground arith
window_max dead_carrier spec h = ground arith
window_max slow_carrier spec h = ground arith
window_max throughput_capped spec h = ground arith
window_max (other_profile s) spec h = absurd (cc h)

module _ (R : Rand) where
  open R use {Source, Float}

  spike-InWindow :
      (spec : ProfileSpec) (interval tick peak base : ℕ)
      → InWindow spec peak
      → InWindow spec base
      → InWindow spec (spike_ms R interval tick peak base)
  unfolding spike_ms
  spike-InWindow spec interval tick peak base h k = if_both (InWindow spec) _ h k

  -- The distributions whose values are bounded, from the checks on the knobs that they need.
  latency_of-InWindow :
      (d : LatencyDistribution) (p : LatencyParams) (spec : ProfileSpec) (tick : ℕ) (rng : Source)
      → All (Needed p) (latency_required_knobs d)
      → All (Placed p spec) position_knobs
      → min_above_max p ≡ []
      → valid_distribution d ≡ true
      → is_normal d ≡ false
      → spec.latency_max_ms ≤ latency_ms_max
      → InWindow spec (latency_of R d p tick rng).0
  unfolding set_latency_knobs latency_required_knobs latency_of valid_distribution
  latency_of-InWindow fixed p spec tick rng (n, _) (a, _) order valid plain top =
      in_window spec p.ms n a
  latency_of-InWindow uniform p spec tick rng (n, (m, _)) (_, (a, (b, _))) order valid plain top =
      let lo = in_window spec p.min_ms n a in
      let hi = in_window spec p.max_ms m b in
      let (x, y) =
        uniform_draw_bounds R (deref p.min_ms) (deref p.max_ms) rng
          (ordered p.min_ms p.max_ms _ n m order) (omega (arith, hi.1)) in
      (omega (arith, lo.0, x), omega (arith, hi.1, y))
  latency_of-InWindow normal p spec tick rng needed position order valid plain top =
      absurd (cc plain)
  latency_of-InWindow spike p spec tick rng (n, (m, _)) (_, (_, (_, (_, (a, (b, _)))))) order valid
        plain top =
      spike-InWindow spec (deref p.interval_ticks) tick (deref p.spike_ms) (deref p.base_ms)
        (in_window spec p.spike_ms m b) (in_window spec p.base_ms n a)
  latency_of-InWindow (other_distribution s) p spec tick rng needed position order valid plain top =
      absurd (cc valid)

  -- The latency that a check of the configuration accepts, at any tick and source.
  latency_ms-InWindow :
      (lat : LatencyConfig) (spec : ProfileSpec) (tick : ℕ) (rng : Source)
      → validate_latency lat spec ≡ []
      → is_normal lat.distribution ≡ false
      → spec.latency_max_ms ≤ latency_ms_max
      → InWindow spec (latency_ms R lat tick rng).0
  unfolding validate_latency validate_latency_params latency_ms
  latency_ms-InWindow lat spec tick rng h plain top =
      elim (Bool-cases (valid_distribution lat.distribution)) [
        | inl e ↦
            let params =
              subst
                (λ b.
                  (if not b
                    then fault invalid_enum "scenario.latency.distribution"
                    else validate_latency_params lat.distribution lat.params spec)
                  ≡ [])
                e h in
            let (needed, rest) = clean_both (clean_both params).1 in
            let (position, rest') = clean_both rest in
            latency_of-InWindow lat.distribution lat.params spec tick rng
              (missing_latency_knobs-Needed lat.distribution lat.params needed)
              (misplaced_latency_knobs-Placed lat.params spec position) (clean_both rest').0 e plain
              top
        | inr e ↦ absurd (cc (e, h))
      ]

  -- A success carries the latency of the source, as it was or after the draw of a flaky carrier.
  evaluate_success-latency :
      (spec : ProfileSpec) (e : Engine Float) (st : BindState Source) (t now : ℕ)
      → ((rng : Source) → InWindow spec (latency_ms R e.latency t rng).0)
      → (evaluate R e st t now).0.outcome ≡ outcome_success
      → InWindow spec (evaluate R e st t now).0.latency_ms
  unfolding evaluate evaluate_outcome evaluate_profile evaluate_flaky flaky_outcome overlay
  evaluate_success-latency spec e st t now all h =
      let (lo, hi) = all st.rng in
      let (lo', hi') = all (R.float64 st.rng).1 in (ground arith, ground arith)

  new-latency :
      (cfg : ScenarioConfig Float) (limit : Option ℕ) → (new cfg limit).latency ≡ cfg.latency
  unfolding new base_engine with_dlr with_edge_cases
  new-latency cfg limit = ground arith

  -- Under a scenario that validation accepts, with a latency that is not normally distributed, a
  -- submit that is decided as a success is served a latency within the bounds of its profile.
  pub evaluate-InWindow :
      (cfg : ScenarioConfig Float) (spec : ProfileSpec) (limit : Option ℕ) (st : BindState Source)
      (t now : ℕ)
      → validate_scenario R cfg ≡ []
      → profile_catalogue cfg.profile ≡ some spec
      → is_normal cfg.latency.distribution ≡ false
      → (evaluate R (new cfg limit) st t now).0.outcome ≡ outcome_success
      → InWindow spec (evaluate R (new cfg limit) st t now).0.latency_ms
  evaluate-InWindow cfg spec limit st t now h known plain success =
      let latency = (scenario_checks R cfg spec known h).1 in
      evaluate_success-latency spec (new cfg limit) st t now
        (λ rng. rw (new-latency cfg limit) (
          latency_ms-InWindow cfg.latency spec t rng latency plain
            (window_max cfg.profile spec known)))
        success
