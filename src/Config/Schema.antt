-- ===== src/Config/Schema.antt =====
-- internal/config/schema.go: the .yml schema. A pointer is an `Option`, a map its keys, in the
-- order of one iteration over it, with their values. `F` is Go's float64.
use go_smsc_simulator.Common.{ℤ, ℕ, Bool, List, [], Option, none, some}
use go_smsc_simulator.Config.Enums.{
  Profile, LatencyDistribution, DisconnectScope, DisconnectWhen, MoMode, DeadCarrierMode, EdgeCase,
  SmppErrorCode, Clock,
}

pub record BindCredentials : Type 0 where
  pub system_id : List ℕ
  pub password : List ℕ

pub record TlsConfig : Type 0 where
  pub enabled : Bool
  pub cert_file : List ℕ
  pub key_file : List ℕ

pub record ProtocolEdgeCasesConfig : Type 0 where
  pub inject_every_ticks : Option ℕ
  pub kinds : List EdgeCase

pub record ErrorMix : Type 0 where
  pub keys : List SmppErrorCode
  pub weight : SmppErrorCode → ℕ

-- A nil map has no keys.
abbrev pub mix_of : Option ErrorMix → ErrorMix
mix_of none = record { keys = []; weight = λ c. 0 }
mix_of (some mix) = mix

pub record ScenarioParams (F : Type 0) : Type 0 where
  pub success_rate : Option F
  pub error_mix : Option ErrorMix
  pub disconnect_interval_ticks : Option ℕ
  pub throughput_cap_per_sec : Option ℕ
  pub error_code : Option SmppErrorCode
  pub mode : Option DeadCarrierMode

pub record LatencyParams : Type 0 where
  pub ms : Option ℕ
  pub min_ms : Option ℕ
  pub max_ms : Option ℕ
  pub mean_ms : Option ℕ
  pub stddev_ms : Option ℕ
  pub base_ms : Option ℕ
  pub spike_ms : Option ℕ
  pub interval_ticks : Option ℕ

pub record LatencyConfig : Type 0 where
  pub distribution : LatencyDistribution
  pub params : LatencyParams

pub record DlrOutcomeWeights : Type 0 where
  pub delivered : ℕ
  pub failed : ℕ
  pub expired : ℕ

pub record DlrDelay : Type 0 where
  pub distribution : LatencyDistribution
  pub ticks : Option ℕ
  pub min_ticks : Option ℕ
  pub max_ticks : Option ℕ

pub record DlrConfig : Type 0 where
  pub delay : DlrDelay
  pub outcome_weights : DlrOutcomeWeights
  pub clock : Clock

pub record ScenarioConfig (F : Type 0) : Type 0 where
  pub profile : Profile
  pub params : ScenarioParams F
  pub latency : LatencyConfig
  pub dlr : Option DlrConfig
  pub protocol_edge_cases_enabled : Bool
  pub protocol_edge_cases : Option ProtocolEdgeCasesConfig

pub record MoEvent : Type 0 where
  pub at_tick : ℕ
  pub source_addr : List ℕ
  pub dest_addr : List ℕ
  pub content : List ℕ

pub record MoInjectionConfig : Type 0 where
  pub mode : MoMode
  pub clock : Clock
  pub events : List MoEvent
  pub rate_per_sec : Option ℤ
  pub content_template : Option (List ℕ)

pub record ScheduledDisconnect : Type 0 where
  pub at_tick : ℕ
  pub scope : DisconnectScope
  pub fires : DisconnectWhen

pub record ScheduledTransition : Type 0 where
  pub at_tick : ℕ
  pub to_profile : Profile

-- `pdu_buffer_size` and the limits per second are Go ints that are compared from below with 1 only,
-- also in recorder.New and in the throughput gate: their negative values are kept as 0.
pub record VirtualSmscConfig (F : Type 0) : Type 0 where
  pub name : List ℕ
  pub port : ℤ
  pub bind_credentials : BindCredentials
  pub addr_ton : ℤ
  pub addr_npi : ℤ
  pub address_range : List ℕ
  pub tls : TlsConfig
  pub seed : Option ℕ
  pub pdu_buffer_size : ℕ
  pub throughput_limit_per_sec : Option ℕ
  pub quiescence_flush_ms : Option ℕ
  pub scenario : ScenarioConfig F
  pub mo_injection : Option MoInjectionConfig
  pub scheduled_disconnects : List ScheduledDisconnect
  pub scheduled_transitions : List ScheduledTransition

abbrev pub quiescence_flush_default_ms : ℕ
quiescence_flush_default_ms = 250

unfoldable pub effective_quiescence_flush_ms : {F : Type 0} → VirtualSmscConfig F → ℕ
effective_quiescence_flush_ms vs = elim vs.quiescence_flush_ms [
  | none ↦ quiescence_flush_default_ms
  | some ms ↦ ms
]

-- `Config`, and `ObservabilityConfig` in it.
pub record ObservabilityConfig : Type 0 where
  pub http_port : ℤ

pub record Config (F : Type 0) : Type 0 where
  pub observability : Option ObservabilityConfig
  pub virtual_smscs : List (VirtualSmscConfig F)
