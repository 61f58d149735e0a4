-- ===== src/Config/Accepted/Receipts.antt =====
-- internal/config/validate.go: the receipts of an accepted scenario.
use go_smsc_simulator.Common.{
  ℕ, ◌+◌, ◌%◌, ◌^◌, ◌≤◌, ◌<◌, ◌≡◌, refl, subst, arith, List, [], ◌∷◌, Option, some,
}
use Prim.Native.String.{String}
use go_smsc_simulator.Rng.{Rand}
use go_smsc_simulator.Config.Schema.{DlrOutcomeWeights, DlrDelay, DlrConfig, ScenarioConfig}
use go_smsc_simulator.Config.Profiles.{ProfileSpec, profile_catalogue, weight_max}
use go_smsc_simulator.Config.Faults.{Fault, fault, if_set, param_not_exposed, clean_both}
use go_smsc_simulator.Config.Validate.{
  weights_loop, validate_weights, validate_delay, validate_clock, validate_dlr,
}
use go_smsc_simulator.Config.Topology.{validate_scenario}
use go_smsc_simulator.Config.Accepted.Checks.{scenario_checks}
use go_smsc_simulator.Fault.{deref}
use go_smsc_simulator.Scenario.Mix.{
  DlrOutcome, dlr_delivered, Weighted, flatten_weights, build_dlr_mix, total_weight, select,
}
use go_smsc_simulator.Scenario.Mix.Pick.{weight_of, select-build_dlr_mix}
use go_smsc_simulator.Scenario.Engine.{
  DlrPlan, Engine, BindState, new, base_engine, with_dlr, with_edge_cases,
}
use go_smsc_simulator.Scenario.Evaluate.{
  evaluate, evaluate_outcome, plan_dlr, pick_dlr_outcome, pick,
}

-- One round of the loop: the weight is within its bound, and the rest is accepted as well.
weights_loop-cons :
    (f : String) (sum w : ℕ) (ws : List ℕ)
    → weights_loop f sum (w ∷ ws) ≡ []
    → (w ≤ weight_max) × (weights_loop f ((sum + w) % 2 ^ 64) ws ≡ [])
unfolding weights_loop
weights_loop-cons f sum w ws h = ground arith

weights_loop-nil : (f : String) (sum : ℕ) → weights_loop f sum [] ≡ [] → 0 < sum
unfolding weights_loop
weights_loop-nil f sum h = ground arith

abbrev sum_of : DlrOutcomeWeights → ℕ
sum_of w = w.delivered + w.failed + w.expired

build_dlr_mix-total :
    (w : DlrOutcomeWeights) → sum_of w < 2 ^ 64 → total_weight (build_dlr_mix w) ≡ sum_of w
unfolding build_dlr_mix flatten_weights total_weight
build_dlr_mix-total w h = ground arith

-- The sum of accepted weights is positive and far from wrapping.
weights_sum :
    (w : DlrOutcomeWeights) (f : String)
    → validate_weights f (w.delivered ∷ w.failed ∷ w.expired ∷ []) ≡ []
    → (0 < sum_of w) × (sum_of w < 2 ^ 64)
unfolding validate_weights
weights_sum w f h =
    let one = (0 + w.delivered) % 2 ^ 64 in
    let two = (one + w.failed) % 2 ^ 64 in
    let (a, h1) = weights_loop-cons f 0 w.delivered (w.failed ∷ w.expired ∷ []) h in
    let (b, h2) = weights_loop-cons f one w.failed (w.expired ∷ []) h1 in
    let (c, h3) = weights_loop-cons f two w.expired [] h2 in
    let positive = weights_loop-nil f ((two + w.expired) % 2 ^ 64) h3 in
    (omega (arith, positive), omega (arith, a, b, c))

abbrev weight_list : DlrOutcomeWeights → List ℕ
weight_list w = w.delivered ∷ w.failed ∷ w.expired ∷ []

abbrev unexposed : String → ℕ → List Fault
unexposed f n = fault param_not_exposed f

-- The delay and the weights of an accepted block are accepted.
dlr_checks :
    (dlr : DlrConfig)
    → validate_dlr (some dlr) ≡ []
    → (validate_delay dlr.delay ≡ [])
      × (validate_weights "scenario.dlr.outcome_weights" (weight_list dlr.outcome_weights) ≡ [])
unfolding validate_dlr
dlr_checks dlr h =
    let (_, rest) = clean_both {xs = validate_clock "scenario.dlr.clock" dlr.clock} h in
    let (delay, rest') = clean_both {xs = validate_delay dlr.delay} rest in
    let (_, rest'') =
      clean_both {xs = if_set dlr.delay.min_ticks (unexposed "scenario.dlr.delay.min_ticks")}
        rest' in
    let (_, weights) =
      clean_both {xs = if_set dlr.delay.max_ticks (unexposed "scenario.dlr.delay.max_ticks")}
        rest'' in
    (delay, weights)

delay_positive : (d : DlrDelay) → validate_delay d ≡ [] → 1 ≤ deref d.ticks
unfolding validate_delay
delay_positive d h = ground arith

module _ (R : Rand) where
  open R use {Source, Float, uint64_n, uint64_n-lt}

  -- A draw of a mix with a positive total is below that total.
  pick_draw :
      {A : Type 0} (default : A) (mix : List (Weighted A)) (rng : Source)
      → 0 < total_weight mix
      → (n : ℕ) × (n < total_weight mix) × ((pick R default mix rng).0 ≡ select default mix n)
  unfolding pick total_weight
  pick_draw default [] rng h = absurd (omega (arith, h))
  pick_draw default (w ∷ ws) rng h =
      ((uint64_n (total_weight (w ∷ ws)) rng).0, uint64_n-lt _ rng h, refl)

  new-dlr :
      (cfg : ScenarioConfig Float) (limit : Option ℕ) (dlr : DlrConfig)
      → cfg.dlr ≡ some dlr
      → ((new cfg limit).dlr_mix ≡ build_dlr_mix dlr.outcome_weights)
        × ((new cfg limit).dlr_delay_ticks ≡ deref dlr.delay.ticks)
  unfolding new base_engine with_dlr with_edge_cases
  new-dlr cfg limit dlr h = (ground arith, ground arith)

  -- A receipt that is planned is one that its engine's mix selects, with the engine's delay.
  plan-evaluate :
      (e : Engine Float) (st : BindState Source) (t now : ℕ) (plan : DlrPlan)
      → (evaluate R e st t now).0.dlr ≡ some plan
      → (rng : Source) × (plan.outcome ≡ (pick R dlr_delivered e.dlr_mix rng).0)
        × (plan.delay_ticks ≡ e.dlr_delay_ticks)
  unfolding evaluate plan_dlr pick_dlr_outcome
  plan-evaluate e st t now plan h =
      ((evaluate_outcome R e st t now).1.rng, ground arith, ground arith)

  -- What a draw of an accepted mix selects has a weight.
  picked_weight :
      (w : DlrOutcomeWeights) (f : String) (rng : Source)
      → validate_weights f (weight_list w) ≡ []
      → (o : DlrOutcome) → o ≡ (pick R dlr_delivered (build_dlr_mix w) rng).0
      → 0 < weight_of w o
  picked_weight w f rng h o drawn =
      let (positive, small) = weights_sum w f h in
      let total = build_dlr_mix-total w small in
      let (n, below, selected) =
        pick_draw dlr_delivered (build_dlr_mix w) rng (rw total positive) in
      let part =
        (select-build_dlr_mix w o dlr_delivered n small below).1.0 (cc (drawn, selected)) in
      omega (arith, part.0, part.1)

  -- Under a scenario that validation accepts, a receipt that is planned for a submit has an outcome
  -- whose weight is not zero, and it is due at least one tick later.
  pub evaluate-receipt :
      (cfg : ScenarioConfig Float) (spec : ProfileSpec) (dlr : DlrConfig) (limit : Option ℕ)
      (st : BindState Source) (t now : ℕ) (plan : DlrPlan)
      → validate_scenario R cfg ≡ []
      → profile_catalogue cfg.profile ≡ some spec
      → cfg.dlr ≡ some dlr
      → (evaluate R (new cfg limit) st t now).0.dlr ≡ some plan
      → (0 < weight_of dlr.outcome_weights plan.outcome) × (1 ≤ plan.delay_ticks)
  evaluate-receipt cfg spec dlr limit st t now plan h known block planned =
      let (delay, weights) =
        dlr_checks dlr
          (subst (λ o. validate_dlr o ≡ []) block (scenario_checks R cfg spec known h).2) in
      let (mix, ticks) = new-dlr cfg limit dlr block in
      let (rng, outcome, due) = plan-evaluate (new cfg limit) st t now plan planned in
      (
        picked_weight dlr.outcome_weights _ rng weights plan.outcome (cc (outcome, mix)),
        let one = delay_positive dlr.delay delay in ground arith,
      )
