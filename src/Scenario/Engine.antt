-- ===== src/Scenario/Engine.antt =====
-- internal/scenario/scenario.go: the engine of a virtual SMSC and the state of a bind.
use go_smsc_simulator.Common.{
  ℕ, ltb, Bool, true, false, ◌||◌, List, [], ◌∷◌, Option, none, some, if◌then◌else◌,
}
use go_smsc_simulator.Smpp.Encode.{EdgeCaseKind}
use go_smsc_simulator.Config.Enums.{
  Profile, throttling_carrier, dead_carrier, throughput_capped, profile_eq, DisconnectWhen,
  DeadCarrierMode, EdgeCase,
}
use go_smsc_simulator.Config.Schema.{
  ScenarioConfig, ScenarioParams, LatencyConfig, DlrConfig, ProtocolEdgeCasesConfig, mix_of,
}
use go_smsc_simulator.Rng.{Rand, new_bind, schedule_base, schedule_coin}
use go_smsc_simulator.Fault.{WallWindow, new_wall_window, deref}
use go_smsc_simulator.Scenario.Mix.{Weighted, DlrOutcome, build_error_mix, build_dlr_mix}

pub data Outcome : Type 0 where
  outcome_success outcome_error outcome_timeout outcome_disconnect : Outcome

pub record DlrPlan : Type 0 where
  pub outcome : DlrOutcome
  pub delay_ticks : ℕ

-- `EdgeCasePlan` is the kind that it holds.
pub record Decision : Type 0 where
  pub outcome : Outcome
  pub status : ℕ
  pub latency_ms : ℕ
  pub disconnect_when : DisconnectWhen
  pub dlr : Option DlrPlan
  pub edge_case : Option EdgeCaseKind

pub record Engine (F : Type 0) : Type 0 where
  pub profile : Profile
  pub params : ScenarioParams F
  pub latency : LatencyConfig
  pub error_mix : List (Weighted ℕ)
  pub limit_per_sec : Option ℕ
  pub dlr_enabled : Bool
  pub dlr_mix : List (Weighted DlrOutcome)
  pub dlr_delay_ticks : ℕ
  pub edge_enabled : Bool
  pub edge_every_ticks : ℕ
  pub edge_kinds : List EdgeCaseKind

pub record BindState (S : Type 0) : Type 0 where
  pub rng : S
  pub sched_base : ℕ
  pub gate : Option WallWindow

unfoldable pub all_edge_kinds : List EdgeCaseKind
all_edge_kinds =
    EdgeCaseKind.bad_length ∷ EdgeCaseKind.unknown_cmd_id ∷ EdgeCaseKind.bad_sequence ∷ []

-- A kind that is none of the three is passed over.
unfoldable pub map_edge_kinds : List EdgeCase → List EdgeCaseKind
map_edge_kinds [] = []
map_edge_kinds (EdgeCase.bad_length ∷ ks) = EdgeCaseKind.bad_length ∷ map_edge_kinds ks
map_edge_kinds (EdgeCase.unknown_command_id ∷ ks) = EdgeCaseKind.unknown_cmd_id ∷ map_edge_kinds ks
map_edge_kinds (EdgeCase.bad_sequence ∷ ks) = EdgeCaseKind.bad_sequence ∷ map_edge_kinds ks
map_edge_kinds (EdgeCase.other_edge_case s ∷ ks) = map_edge_kinds ks

-- `if ec.InjectEveryTicks != nil` over the default 1.
abbrev pub or_one : Option ℕ → ℕ
or_one none = 1
or_one (some n) = n

abbrev pub or_all_kinds : List EdgeCase → List EdgeCaseKind
or_all_kinds [] = all_edge_kinds
or_all_kinds (k ∷ ks) = map_edge_kinds (k ∷ ks)

-- The tighter of two caps, where both are set.
abbrev pub consider : Option ℕ → Option ℕ → Option ℕ
consider tightest none = tightest
consider none (some c) = some c
consider (some b) (some c) = some (if ltb c b then c else b)

abbrev pub is_reject : Option DeadCarrierMode → Bool
is_reject (some DeadCarrierMode.reject_bind) = true
is_reject _ = false

module _ {F : Type 0} where
  -- The engine without DLRs and edge cases, as `New` begins.
  unfoldable pub base_engine : ScenarioConfig F → Option ℕ → Engine F
  base_engine cfg limit = record {
    profile = cfg.profile;
    params = cfg.params;
    latency = cfg.latency;
    error_mix = build_error_mix (mix_of cfg.params.error_mix);
    limit_per_sec = limit;
    dlr_enabled = false;
    dlr_mix = [];
    dlr_delay_ticks = 0;
    edge_enabled = false;
    edge_every_ticks = 0;
    edge_kinds = [];
  }

  unfoldable pub with_dlr : Option DlrConfig → Engine F → Engine F
  with_dlr none e = e
  with_dlr (some dlr) e = record e {
    dlr_enabled = true;
    dlr_mix = build_dlr_mix dlr.outcome_weights;
    dlr_delay_ticks = deref dlr.delay.ticks;
  }

  unfoldable pub with_edge_cases : Bool → Option ProtocolEdgeCasesConfig → Engine F → Engine F
  with_edge_cases false ec e = e
  with_edge_cases true none e = record e {
    edge_enabled = true;
    edge_every_ticks = 1;
    edge_kinds = all_edge_kinds;
  }
  with_edge_cases true (some ec) e = record e {
    edge_enabled = true;
    edge_every_ticks = or_one ec.inject_every_ticks;
    edge_kinds = or_all_kinds ec.kinds;
  }

  unfoldable pub new : ScenarioConfig F → Option ℕ → Engine F
  unfolding base_engine with_dlr with_edge_cases
  new cfg limit =
      with_edge_cases cfg.protocol_edge_cases_enabled cfg.protocol_edge_cases
        (with_dlr cfg.dlr (base_engine cfg limit))

  unfoldable pub effective_cap : Engine F → Option ℕ
  effective_cap e =
      let limit = consider none e.limit_per_sec in
      if profile_eq e.profile throttling_carrier || profile_eq e.profile throughput_capped
      then consider limit e.params.throughput_cap_per_sec
      else limit

  unfoldable pub reject_bind : Engine F → Bool
  reject_bind e = if profile_eq e.profile dead_carrier then is_reject e.params.mode else false

abbrev pub gate_of : Option ℕ → Option WallWindow
gate_of none = none
gate_of (some c) = some (new_wall_window c)

-- Without a seed the source and the base come from the process: they are the last argument.
unfoldable pub new_bind_state :
    (R : Rand) → Engine R.Float → Option ℕ → List ℕ → ℕ → R.Source × ℕ → BindState R.Source
new_bind_state R e none smsc_id ordinal (rng, base) = record {
  rng = rng;
  sched_base = base;
  gate = gate_of (effective_cap e);
}
new_bind_state R e (some seed) smsc_id ordinal chaos = record {
  rng = new_bind R seed smsc_id ordinal;
  sched_base = schedule_base seed smsc_id ordinal;
  gate = gate_of (effective_cap e);
}

unfoldable pub disconnect_draw : {S : Type 0} → BindState S → ℕ → Bool
disconnect_draw st tick = schedule_coin st.sched_base tick
