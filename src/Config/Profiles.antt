-- ===== src/Config/Profiles.antt =====
-- internal/config/profiles.go: which knobs a profile exposes, and the bounds of the numbers.
use go_smsc_simulator.Common.{ℕ, ◌==◌, Bool, false, ◌||◌, List, [], ◌∷◌, Option, none, some}
use go_smsc_simulator.Config.Enums.{
  Profile, healthy, flaky_carrier, throttling_carrier, dead_carrier, slow_carrier,
  throughput_capped, other_profile,
}

-- The knob names.
pub data Knob : Type 0 where
  knob_success_rate knob_error_mix knob_disconnect_interval_ticks knob_throughput_cap_per_sec
        knob_error_code knob_mode :
      Knob

abbrev knob_index : Knob → ℕ
knob_index knob_success_rate = 0
knob_index knob_error_mix = 1
knob_index knob_disconnect_interval_ticks = 2
knob_index knob_throughput_cap_per_sec = 3
knob_index knob_error_code = 4
knob_index knob_mode = 5

-- `slices.Contains`, and the lookup in a set of knobs.
abbrev pub has_knob : Knob → List Knob → Bool
has_knob k [] = false
has_knob k (j ∷ js) = knob_index k == knob_index j || has_knob k js

abbrev pub throughput_cap_min : ℕ
throughput_cap_min = 1

abbrev pub throughput_cap_max : ℕ
throughput_cap_max = 1_000_000

abbrev pub latency_ms_max : ℕ
latency_ms_max = 600_000

abbrev pub slow_carrier_latency_min_ms : ℕ
slow_carrier_latency_min_ms = 2_000

abbrev pub slow_carrier_latency_max_ms : ℕ
slow_carrier_latency_max_ms = 4_000

abbrev pub pdu_buffer_size_min : ℕ
pdu_buffer_size_min = 1

abbrev pub pdu_buffer_size_max : ℕ
pdu_buffer_size_max = 1_000_000

abbrev pub weight_max : ℕ
weight_max = 1_000_000_000

abbrev pub mo_addr_max_len : ℕ
mo_addr_max_len = 20

abbrev pub mo_content_max_len : ℕ
mo_content_max_len = 254

abbrev pub port_min : ℕ
port_min = 1

abbrev pub port_max : ℕ
port_max = 65_535

abbrev pub octet_max : ℕ
octet_max = 255

abbrev pub quiescence_flush_min_ms : ℕ
quiescence_flush_min_ms = 1

abbrev pub quiescence_flush_max_ms : ℕ
quiescence_flush_max_ms = 600_000

pub record ProfileSpec : Type 0 where
  pub exposes : List Knob
  pub requires : Option Knob
  pub latency_min_ms : ℕ
  pub latency_max_ms : ℕ

abbrev spec_of : List Knob → Option Knob → ProfileSpec
spec_of exposes requires = record {
  exposes = exposes;
  requires = requires;
  latency_min_ms = 0;
  latency_max_ms = latency_ms_max;
}

-- A lookup in the table; an unknown profile has no entry.
unfoldable pub profile_catalogue : Profile → Option ProfileSpec
profile_catalogue healthy = some (spec_of [] none)
profile_catalogue flaky_carrier = some (
    spec_of (knob_success_rate ∷ knob_error_mix ∷ knob_disconnect_interval_ticks ∷ [])
      (some knob_success_rate))
profile_catalogue throttling_carrier = some (
    spec_of (knob_throughput_cap_per_sec ∷ knob_error_code ∷ []) (some knob_throughput_cap_per_sec))
profile_catalogue dead_carrier = some (spec_of (knob_mode ∷ []) (some knob_mode))
profile_catalogue slow_carrier = some (record {
  exposes = [];
  requires = none;
  latency_min_ms = slow_carrier_latency_min_ms;
  latency_max_ms = slow_carrier_latency_max_ms;
})
profile_catalogue throughput_capped =
    some (spec_of (knob_throughput_cap_per_sec ∷ []) (some knob_throughput_cap_per_sec))
profile_catalogue (other_profile s) = none
