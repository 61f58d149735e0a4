-- ===== src/Config/Accepted/Replay.antt =====
-- internal/config/validate.go and internal/scenario/scenario.go: what keeps a seeded run off the
-- wall clock and the process's own randomness.
use go_smsc_simulator.Common.{
  ℕ, ◌≡◌, refl, ap, arith, true, false, List, [], Option, none, some, Option-cases, inl, inr,
}
use go_smsc_simulator.Rng.{Rand}
use go_smsc_simulator.Config.Schema.{ScenarioConfig, VirtualSmscConfig}
use go_smsc_simulator.Config.Topology.{throughput_exempt, is_seeded, validate_seed}
use go_smsc_simulator.Scenario.Engine.{
  Engine, BindState, new, base_engine, with_dlr, with_edge_cases, effective_cap, gate_of,
  new_bind_state,
}
use go_smsc_simulator.Scenario.Evaluate.{evaluate, evaluate_outcome, plan_dlr}

module _ (R : Rand) where
  open R use {Source, Float}

  pub evaluate-ungated :
      (e : Engine Float) (st : BindState Source) (t now now' : ℕ)
      → st.gate ≡ none
      → (evaluate R e st t now ≡ evaluate R e st t now') × ((evaluate R e st t now).1.gate ≡ none)
  unfolding evaluate evaluate_outcome plan_dlr
  evaluate-ungated e st t now now' h = ground arith

  pub new_bind_state-seeded :
      (e : Engine Float) (seed : Option ℕ) (name : List ℕ) (ordinal : ℕ) (chaos chaos' : Source × ℕ)
      → is_seeded seed ≡ true
      → new_bind_state R e seed name ordinal chaos ≡ new_bind_state R e seed name ordinal chaos'
  unfolding new_bind_state
  new_bind_state-seeded e none name ordinal chaos chaos' h = absurd (cc h)
  new_bind_state-seeded e (some s) name ordinal chaos chaos' h = refl

  pub new_bind_state-ungated :
      (e : Engine Float) (seed : Option ℕ) (name : List ℕ) (ordinal : ℕ) (chaos : Source × ℕ)
      → effective_cap e ≡ none
      → (new_bind_state R e seed name ordinal chaos).gate ≡ none
  unfolding new_bind_state
  new_bind_state-ungated e none name ordinal (rng, base) h = ap gate_of h
  new_bind_state-ungated e (some s) name ordinal chaos h = ap gate_of h

  -- A seed leaves no limit on a profile that is not exempt.
  pub unlimited :
      (vs : VirtualSmscConfig Float)
      → validate_seed R vs ≡ []
      → is_seeded vs.seed ≡ true
      → throughput_exempt vs.scenario.profile ≡ false
      → vs.throughput_limit_per_sec ≡ none
  unfolding validate_seed
  unlimited vs h seeded plain = elim (Option-cases vs.throughput_limit_per_sec) [
    | inl e ↦ e
    | inr (n, e) ↦ absurd (ground arith)
  ]

  pub uncapped :
      (cfg : ScenarioConfig Float) (limit : Option ℕ)
      → limit ≡ none
      → throughput_exempt cfg.profile ≡ false
      → effective_cap (new cfg limit) ≡ none
  unfolding effective_cap new base_engine with_dlr with_edge_cases
  uncapped cfg limit h plain = ground arith
