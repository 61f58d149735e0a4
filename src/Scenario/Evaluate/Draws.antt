-- ===== src/Scenario/Evaluate/Draws.antt =====
-- The decision of one submit: what the throughput gate, the profile and the draws make of it.
use go_smsc_simulator.Common.{
  ℕ, ◌+◌, ◌-◌, ◌%◌, ◌^◌, ◌≤◌, ◌<◌, ◌≡◌, ◌≢◌, ◌↔◌, arith, ltb, ◌==◌, true, false, List, [], ◌∷◌, map,
  All, Option, none, some, Bool-cases, inl, inr, bytes_eq, bytes_lt,
}
use native.Mathlib.Nat.{mod-eq_of_lt}
use go_smsc_simulator.Smpp.Commands.{status_rok, status_submit_fail}
use go_smsc_simulator.Config.Enums.{SmppErrorCode, error_code_rok, valid_error}
use go_smsc_simulator.Config.Schema.{ErrorMix, mix_of, ScenarioConfig}
use go_smsc_simulator.Rng.{Rand}
use go_smsc_simulator.Fault.{WallWindow, allow, uniform_draw}
use go_smsc_simulator.Scenario.Mix.{
  Weighted, status_for, flatten_weights, insert_code, sort_codes, build_error_mix, select,
}
use go_smsc_simulator.Scenario.Engine.{outcome_success, outcome_error, Engine, BindState, new}
use go_smsc_simulator.Scenario.Evaluate.{
  throttle_status, evaluate_outcome, evaluate_profile, plan_dlr, evaluate, evaluate_flaky,
  flaky_outcome, overlay, pick_error_status, pick,
}

module _ (R : Rand) where
  open R use {Source, Float, uint64_n, uint64_n-lt}

  -- A refused submit is answered with the throttle status, at once, and draws nothing.
  evaluate_throttled :
      (e : Engine Float) (st : BindState Source) (g : WallWindow) (t now : ℕ)
      → st.gate ≡ some g
      → (allow g now).0 ≡ false
      → ((evaluate R e st t now).0.outcome ≡ outcome_error)
        × ((evaluate R e st t now).0.status ≡ throttle_status e)
        × ((evaluate R e st t now).0.latency_ms ≡ 0)
        × ((evaluate R e st t now).0.dlr ≡ none)
        × ((evaluate R e st t now).1 ≡ record st { gate = some (allow g now).1 })
  unfolding evaluate evaluate_outcome plan_dlr
  evaluate_throttled e st g t now gated refused = ground arith

  -- A receipt is planned exactly for a success under an engine with receipts.
  evaluate_dlr :
      (e : Engine Float) (st : BindState Source) (t now : ℕ)
      → ((evaluate R e st t now).0.dlr ≢ none)
        ↔ ((e.dlr_enabled ≡ true) × ((evaluate R e st t now).0.outcome ≡ outcome_success))
  unfolding evaluate plan_dlr
  evaluate_dlr e st t now = (ground arith, ground arith)

  -- The served latency of the uniform distribution lies between its bounds, if the lower is not above
  -- the upper and the upper is below the largest uint64.
  pub uniform_draw_bounds :
      (lo hi : ℕ) (rng : Source)
      → lo ≤ hi
      → hi + 1 < 2 ^ 64
      → (lo ≤ (uniform_draw R lo hi rng).0) × ((uniform_draw R lo hi rng).0 ≤ hi)
  unfolding uniform_draw
  uniform_draw_bounds lo hi rng h k =
      ground (arith, uint64_n-lt (hi - lo + 1) rng, mod-eq_of_lt {n = hi - lo + 1} {m = 2 ^ 64})

-- No code that validation accepts stands for the status ROK.
status_for-ne-rok :
    (c : SmppErrorCode) → bytes_eq c error_code_rok ≡ false → status_for c ≢ status_rok
unfolding status_for
status_for-ne-rok c h = ground arith

abbrev pub IsError : SmppErrorCode → Type 0
IsError c = valid_error c ≡ true

error_ne_rok : (c : SmppErrorCode) → IsError c → status_for c ≢ status_rok
unfolding valid_error
error_ne_rok c h = status_for-ne-rok c (ground arith)

abbrev NotRok : Weighted ℕ → Type 0
NotRok w = w.outcome ≢ status_rok

insert_code-All :
    (c : SmppErrorCode) (ds : List SmppErrorCode)
    → IsError c
    → All IsError ds
    → All IsError (insert_code c ds)
unfolding insert_code
insert_code-All c [] h k = (h, tt)
insert_code-All c (d ∷ ds) h (p, k) = elim (Bool-cases (bytes_lt c d)) [
  | inl e ↦ rw e (h, (p, k))
  | inr e ↦ rw e (p, insert_code-All c ds h k)
]

sort_codes-All : (cs : List SmppErrorCode) → All IsError cs → All IsError (sort_codes cs)
unfolding sort_codes
sort_codes-All [] h = tt
sort_codes-All (c ∷ cs) (p, h) = insert_code-All c (sort_codes cs) p (sort_codes-All cs h)

flatten-NotRok :
    (acc : ℕ) (weight : SmppErrorCode → ℕ) (cs : List SmppErrorCode)
    → All IsError cs
    → All NotRok (flatten_weights acc (map (λ c. (status_for c, weight c)) cs))
unfolding flatten_weights
flatten-NotRok acc weight [] h = tt
flatten-NotRok acc weight (c ∷ cs) (p, h) = elim (Bool-cases (weight c == 0)) [
  | inl e ↦ rw e (flatten-NotRok acc weight cs h)
  | inr e ↦ rw e (error_ne_rok c p, flatten-NotRok ((acc + weight c) % 2 ^ 64) weight cs h)
]

build_error_mix-NotRok : (mix : ErrorMix) → All IsError mix.keys → All NotRok (build_error_mix mix)
unfolding build_error_mix
build_error_mix-NotRok mix h =
    flatten-NotRok 0 mix.weight (sort_codes mix.keys) (sort_codes-All mix.keys h)

select-NotRok :
    (unmatched n : ℕ) (ws : List (Weighted ℕ))
    → unmatched ≢ status_rok
    → All NotRok ws
    → select unmatched ws n ≢ status_rok
unfolding select
select-NotRok unmatched n [] u h = u
select-NotRok unmatched n (w ∷ ws) u (p, h) = elim (Bool-cases (ltb n w.cum)) [
  | inl e ↦ rw e p
  | inr e ↦ rw e (select-NotRok w.outcome n ws p h)
]

module _ (R : Rand) where
  open R use {Source, Float, uint64_n}

  pick-NotRok :
      (ws : List (Weighted ℕ)) (rng : Source)
      → All NotRok ws
      → (pick R status_submit_fail ws rng).0 ≢ status_rok
  unfolding pick
  pick-NotRok [] rng h = omega arith
  pick-NotRok (w ∷ ws) rng h = select-NotRok status_submit_fail _ (w ∷ ws) (omega arith) h

  -- The codes that an engine may answer with are errors.
  pub record AnswersErrors (e : Engine Float) : Type 0 where
    mix : All NotRok e.error_mix
    throttle : throttle_status e ≢ status_rok

  evaluate_profile-ne-rok :
      (e : Engine Float) (rng : Source) (t : ℕ)
      → AnswersErrors e
      → (evaluate_profile R e rng t).0.outcome ≡ outcome_error
      → (evaluate_profile R e rng t).0.status ≢ status_rok
  unfolding evaluate_profile evaluate_flaky flaky_outcome overlay pick_error_status
  evaluate_profile-ne-rok e rng t v h =
      ground (arith, pick-NotRok e.error_mix (R.float64 rng).1 v.mix)

  evaluate-ne-rok :
      (e : Engine Float) (st : BindState Source) (t now : ℕ)
      → AnswersErrors e
      → (evaluate R e st t now).0.outcome ≡ outcome_error
      → (evaluate R e st t now).0.status ≢ status_rok
  unfolding evaluate evaluate_outcome
  evaluate-ne-rok e st t now v h = ground (arith, v.throttle, evaluate_profile-ne-rok e st.rng t v)

  -- The optional code of a throttling carrier.
  abbrev pub CodeIsError : Option SmppErrorCode → Type 0
  CodeIsError none = Unit {0}
  CodeIsError (some c) = IsError c

  throttle_status-ne-rok :
      (e : Engine Float) (code : Option SmppErrorCode)
      → e.params.error_code ≡ code
      → CodeIsError code
      → throttle_status e ≢ status_rok
  unfolding throttle_status
  throttle_status-ne-rok e none h c = ground arith
  throttle_status-ne-rok e (some c) h k = ground (arith, error_ne_rok c k)

  -- The options of `New` leave the error mix and the parameters alone.
  new_keeps :
      (cfg : ScenarioConfig Float) (limit : Option ℕ)
      → ((new cfg limit).error_mix ≡ build_error_mix (mix_of cfg.params.error_mix))
        × ((new cfg limit).params ≡ cfg.params)
  unfolding new
  new_keeps cfg limit = (ground arith, ground arith)

  -- With error codes that validation accepts, a submit that is decided as an error is never
  -- answered with ESME_ROK.
  pub evaluate_error_status :
      (cfg : ScenarioConfig Float) (limit : Option ℕ) (st : BindState Source) (t now : ℕ)
      → All IsError (mix_of cfg.params.error_mix).keys
      → CodeIsError cfg.params.error_code
      → (evaluate R (new cfg limit) st t now).0.outcome ≡ outcome_error
      → (evaluate R (new cfg limit) st t now).0.status ≢ status_rok
  evaluate_error_status cfg limit st t now keys code h =
      let (mix, params) = new_keeps cfg limit in
      evaluate-ne-rok (new cfg limit) st t now
        (record {
          mix = rw mix (build_error_mix-NotRok (mix_of cfg.params.error_mix) keys);
          throttle = throttle_status-ne-rok (new cfg limit) cfg.params.error_code (rw params) code;
        })
        h
