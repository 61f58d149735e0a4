-- ===== src/Scenario/Evaluate/Injection.antt =====
-- The injection of edge cases and the plan of a receipt: when they happen, and what they leave alone.
use go_smsc_simulator.Common.{
  ℕ, suc, ◌+◌, ◌*◌, ◌/◌, ◌%◌, ◌<◌, ◌≡◌, refl, arith, Bool, true, List, length, get_elem?, none,
}
use go_smsc_simulator.Smpp.Encode.{EdgeCaseKind}
use go_smsc_simulator.Rng.{Rand}
use go_smsc_simulator.Scenario.Engine.{Engine, BindState}
use go_smsc_simulator.Scenario.Evaluate.{
  throttle_status, edge_case_for, evaluate_outcome, evaluate_profile, plan_dlr, evaluate,
  evaluate_flaky, flaky_outcome, overlay, pick_dlr_outcome, pick_error_status,
}

-- Division of a multiple, and of what lies between two multiples.
multiple_mod : (k n : ℕ) → 0 < n → suc k * n % n ≡ 0
multiple_mod k n h = grind arith

multiple_div : (k n : ℕ) → 0 < n → suc k * n / n ≡ suc k
multiple_div k n h = grind arith

between_mod : (k n r : ℕ) → r < n → (k * n + r) % n ≡ r
between_mod k n r h = grind arith

multiple_pos : (k n : ℕ) → 0 < n → 0 < suc k * n
multiple_pos k n h = grind arith

-- Injection that is enabled, with some kinds, fires on the positive multiples of the cadence, where it rotates through the kinds in order,
-- and on no tick between two multiples.
edge_case_for_rotation :
    {F : Type 0} (e : Engine F) (k r : ℕ)
    → e.edge_enabled ≡ true
    → 0 < r
    → r < e.edge_every_ticks
    → 0 < length e.edge_kinds
    → (edge_case_for e (suc k * e.edge_every_ticks)
        ≡ get_elem? e.edge_kinds (k % length e.edge_kinds))
      × (edge_case_for e (k * e.edge_every_ticks + r) ≡ none)
unfolding edge_case_for
edge_case_for_rotation e k r on pos below some_kind = (
  ground (
    arith,
    multiple_mod k e.edge_every_ticks,
    multiple_div k e.edge_every_ticks,
    multiple_pos k e.edge_every_ticks,
  ),
  ground (arith, between_mod k e.edge_every_ticks r),
)

module _ (R : Rand) where
  open R use {Source, Float}

  -- The edge-case knobs do not reach the decision: with any others the same outcome, status,
  -- latency and receipt are decided, and the bind's state, its random source included, ends up the same.
  evaluate_knobs :
      (e : Engine Float) (st : BindState Source) (t now : ℕ) (on : Bool) (every : ℕ)
      (kinds : List EdgeCaseKind)
      → evaluate R
          (record e { edge_enabled = on; edge_every_ticks = every; edge_kinds = kinds })
          st
          t
          now
        ≡ (
          record (evaluate R e st t now).0 {
            edge_case =
                edge_case_for
                  (record e { edge_enabled = on; edge_every_ticks = every; edge_kinds = kinds })
                  t;
          },
          (evaluate R e st t now).1,
        )
  unfolding evaluate evaluate_outcome evaluate_profile evaluate_flaky flaky_outcome overlay plan_dlr
      pick_dlr_outcome pick_error_status throttle_status
  evaluate_knobs e st t now on every kinds = refl
