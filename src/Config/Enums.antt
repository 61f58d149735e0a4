-- ===== src/Config/Enums.antt =====
-- internal/config/enums.go. An enum is a named string type: its listed values are constructors,
-- and `other_…` stands for any other string.
use go_smsc_simulator.Common.{ℕ, Bool, true, false, not, ◌&&◌, ◌||◌, List, bytes_eq, codes}

pub data Profile : Type 0 where
  healthy flaky_carrier throttling_carrier dead_carrier slow_carrier throughput_capped : Profile
  other_profile : List ℕ → Profile

unfoldable pub valid_profile : Profile → Bool
valid_profile (other_profile s) = false
valid_profile p = true

-- `==` on the strings.
unfoldable pub profile_eq : Profile → Profile → Bool
profile_eq healthy healthy = true
profile_eq flaky_carrier flaky_carrier = true
profile_eq throttling_carrier throttling_carrier = true
profile_eq dead_carrier dead_carrier = true
profile_eq slow_carrier slow_carrier = true
profile_eq throughput_capped throughput_capped = true
profile_eq (other_profile s) (other_profile t) = bytes_eq s t
profile_eq p q = false

pub data LatencyDistribution : Type 0 where
  fixed uniform normal spike : LatencyDistribution
  other_distribution : List ℕ → LatencyDistribution

unfoldable pub valid_distribution : LatencyDistribution → Bool
valid_distribution (other_distribution s) = false
valid_distribution d = true

pub data Clock : Type 0 where
  clock_logical clock_wallclock : Clock
  other_clock : List ℕ → Clock

unfoldable pub valid_clock : Clock → Bool
valid_clock (other_clock s) = false
valid_clock c = true

pub data DisconnectScope : Type 0 where
  all oldest random : DisconnectScope
  other_scope : List ℕ → DisconnectScope

unfoldable pub valid_scope : DisconnectScope → Bool
valid_scope (other_scope s) = false
valid_scope s = true

pub data DisconnectWhen : Type 0 where
  before_response after_response : DisconnectWhen
  other_when : List ℕ → DisconnectWhen

unfoldable pub valid_when : DisconnectWhen → Bool
valid_when (other_when s) = false
valid_when w = true

pub data MoMode : Type 0 where
  scheduled auto disabled : MoMode
  other_mode : List ℕ → MoMode

unfoldable pub valid_mo_mode : MoMode → Bool
valid_mo_mode (other_mode s) = false
valid_mo_mode m = true

pub data DeadCarrierMode : Type 0 where
  reject_bind timeout_all : DeadCarrierMode
  other_dead_carrier_mode : List ℕ → DeadCarrierMode

unfoldable pub valid_dead_carrier_mode : DeadCarrierMode → Bool
valid_dead_carrier_mode (other_dead_carrier_mode s) = false
valid_dead_carrier_mode m = true

pub data EdgeCase : Type 0 where
  bad_length unknown_command_id bad_sequence : EdgeCase
  other_edge_case : List ℕ → EdgeCase

unfoldable pub valid_edge_case : EdgeCase → Bool
valid_edge_case (other_edge_case s) = false
valid_edge_case k = true

-- An error code is kept as its string, since the codes of an error mix are sorted by it.
abbrev pub SmppErrorCode : Type 0
SmppErrorCode = List ℕ

abbrev pub error_code_rok : SmppErrorCode
error_code_rok = codes "ESME_ROK"

abbrev pub error_code_rthrottled : SmppErrorCode
error_code_rthrottled = codes "ESME_RTHROTTLED"

abbrev pub error_code_rsubmitfail : SmppErrorCode
error_code_rsubmitfail = codes "ESME_RSUBMITFAIL"

abbrev pub error_code_rinvdstadr : SmppErrorCode
error_code_rinvdstadr = codes "ESME_RINVDSTADR"

abbrev pub error_code_rsyserr : SmppErrorCode
error_code_rsyserr = codes "ESME_RSYSERR"

abbrev pub error_code_rmsgqful : SmppErrorCode
error_code_rmsgqful = codes "ESME_RMSGQFUL"

abbrev pub error_code_rinvsrcadr : SmppErrorCode
error_code_rinvsrcadr = codes "ESME_RINVSRCADR"

unfoldable pub valid_code : SmppErrorCode → Bool
valid_code c =
    bytes_eq c error_code_rok
    || bytes_eq c error_code_rthrottled
    || bytes_eq c error_code_rsubmitfail
    || bytes_eq c error_code_rinvdstadr
    || bytes_eq c error_code_rsyserr
    || bytes_eq c error_code_rmsgqful
    || bytes_eq c error_code_rinvsrcadr

unfoldable pub valid_error : SmppErrorCode → Bool
valid_error c = not (bytes_eq c error_code_rok) && valid_code c
