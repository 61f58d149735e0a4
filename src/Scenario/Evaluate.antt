-- ===== src/Scenario/Evaluate.antt =====
-- internal/scenario/scenario.go: the decision for one submit_sm. Each function returns its result
-- with the state that its draws leave; `now` is what the throughput gate's clock reads.
pub mod Draws
pub mod Injection
use go_smsc_simulator.Common.{
  ℕ, ◌+◌, ◌-◌, ◌/◌, ◌%◌, ltb, ◌==◌, Bool, true, false, not, ◌&&◌, ◌||◌, List, [], ◌∷◌, length,
  get_elem?, Option, none, some, if◌then◌else◌,
}
use go_smsc_simulator.Smpp.Commands.{status_throttled, status_submit_fail}
use go_smsc_simulator.Smpp.Encode.{EdgeCaseKind}
use go_smsc_simulator.Config.Enums.{
  Profile, flaky_carrier, dead_carrier, throttling_carrier, profile_eq, DisconnectWhen,
  after_response, other_when, SmppErrorCode,
}
use go_smsc_simulator.Config.Schema.{ScenarioParams}
use go_smsc_simulator.Rng.{Rand}
use go_smsc_simulator.Fault.{WallWindow, allow, latency_ms}
use go_smsc_simulator.Scenario.Mix.{
  Weighted, DlrOutcome, dlr_delivered, status_for, total_weight, select,
}
use go_smsc_simulator.Scenario.Engine.{
  Outcome, outcome_success, outcome_error, outcome_timeout, outcome_disconnect, DlrPlan, Decision,
  Engine, BindState,
}

-- Go's zero `DisconnectWhen`.
abbrev pub no_disconnect : DisconnectWhen
no_disconnect = other_when []

abbrev pub decided : Outcome → ℕ → ℕ → Decision
decided outcome status latency = record {
  outcome = outcome;
  status = status;
  latency_ms = latency;
  disconnect_when = no_disconnect;
  dlr = none;
  edge_case = none;
}

module _ {F : Type 0} where
  unfoldable pub throttle_status : Engine F → ℕ
  throttle_status e = elim e.params.error_code [
    | none ↦ status_throttled
    | some c ↦ if profile_eq e.profile throttling_carrier then status_for c else status_throttled
  ]

  -- The guards, and then the rotation through the kinds.
  unfoldable pub edge_case_for : Engine F → ℕ → Option EdgeCaseKind
  edge_case_for e t =
      if not e.edge_enabled
        || t == 0
        || length e.edge_kinds == 0
        || e.edge_every_ticks == 0
        || not (t % e.edge_every_ticks == 0)
      then none
      else get_elem? e.edge_kinds ((t / e.edge_every_ticks - 1) % length e.edge_kinds)

module _ (R : Rand) where
  open R use {Source, Float, uint64_n, float64, one, at_least}

  -- One draw selects an outcome of a mix; an empty mix draws nothing.
  unfoldable pub pick : {A : Type 0} → A → List (Weighted A) → Source → A × Source
  pick default [] rng = (default, rng)
  pick default (w ∷ ws) rng =
      let (n, rng') = uint64_n (total_weight (w ∷ ws)) rng in (select default (w ∷ ws) n, rng')

  unfoldable pub pick_dlr_outcome : Engine Float → Source → DlrOutcome × Source
  pick_dlr_outcome e rng = pick dlr_delivered e.dlr_mix rng

  unfoldable pub pick_error_status : Engine Float → Source → ℕ × Source
  pick_error_status e rng = pick status_submit_fail e.error_mix rng

  abbrev rate_or_one : Option Float → Float
  rate_or_one none = one
  rate_or_one (some r) = r

  -- `st.rng.Float64() >= successRate`, and on the error branch the code.
  unfoldable pub flaky_outcome : Engine Float → Source → Outcome × ℕ × Source
  flaky_outcome e rng =
      let (x, rng1) = float64 rng in
      let (status, rng2) = pick_error_status e rng1 in
      if at_least x (rate_or_one e.params.success_rate)
      then (outcome_error, status, rng2)
      else (outcome_success, 0, rng1)

  abbrev is_interval : Option ℕ → ℕ → Bool
  is_interval none t = false
  is_interval (some iv) t = not (iv == 0) && t % iv == 0

  -- The periodic disconnect overlays what was drawn.
  unfoldable pub overlay : Engine Float → ℕ → Decision → Decision
  overlay e t d =
      if is_interval e.params.disconnect_interval_ticks t
      then record d { outcome = outcome_disconnect; disconnect_when = after_response }
      else d

  unfoldable pub evaluate_flaky : Engine Float → Source → ℕ → Decision × Source
  evaluate_flaky e rng t =
      let (outcome, status, rng1) = flaky_outcome e rng in
      let (latency, rng2) = latency_ms R e.latency t rng1 in
      (overlay e t (decided outcome status latency), rng2)

  -- Under the cap: the switch on the profile.
  unfoldable pub evaluate_profile : Engine Float → Source → ℕ → Decision × Source
  evaluate_profile e rng t =
      if profile_eq e.profile flaky_carrier
      then evaluate_flaky e rng t
      else if profile_eq e.profile dead_carrier
      then (decided outcome_timeout 0 0, rng)
      else let (latency, rng') = latency_ms R e.latency t rng in
        (decided outcome_success 0 latency, rng')

  -- `st.gate != nil && !st.gate.Allow()`: whether the submit passes, and the gate after it.
  abbrev pub pass : Option WallWindow → ℕ → Bool × Option WallWindow
  pass none now = (true, none)
  pass (some g) now = let (b, g') = allow g now in (b, some g')

  unfoldable pub evaluate_outcome :
      Engine Float → BindState Source → ℕ → ℕ → Decision × BindState Source
  evaluate_outcome e st t now =
      let (passed, gate') = pass st.gate now in
      let (d, rng') = evaluate_profile e st.rng t in
      if passed
      then (d, record st { rng = rng'; gate = gate' })
      else (decided outcome_error (throttle_status e) 0, record st { gate = gate' })

  abbrev pub is_success : Outcome → Bool
  is_success outcome_success = true
  is_success _ = false

  -- The DLR's draw is the last of a tick, and made only for a success.
  unfoldable pub plan_dlr : Engine Float → Decision → Source → Option DlrPlan × Source
  plan_dlr e d rng =
      let (o, rng') = pick_dlr_outcome e rng in
      if e.dlr_enabled && is_success d.outcome
      then (some (record { outcome = o; delay_ticks = e.dlr_delay_ticks }), rng')
      else (none, rng)

  unfoldable pub evaluate : Engine Float → BindState Source → ℕ → ℕ → Decision × BindState Source
  evaluate e st t now =
      let (d, st') = evaluate_outcome e st t now in
      let (plan, rng') = plan_dlr e d st'.rng in
      (record d { dlr = plan; edge_case = edge_case_for e t }, record st' { rng = rng' })
