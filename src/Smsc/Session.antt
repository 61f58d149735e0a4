-- ===== src/Smsc/Session.antt =====
-- internal/smsc/session.go and virtualsmsc.go: the state of a session and of the virtual SMSC that
-- it belongs to, and how a PDU is queued for the writer. A session's read goroutine owns the
-- session, so each of its operations is a function of the two states; what the operation sees of
-- the clock, of shutdown and of other goroutines is in `Env`.
use go_smsc_simulator.Common.{
  ℕ, zero, suc, ◌+◌, ◌-◌, ◌/◌, ◌%◌, ◌==◌, ltb, Bool, List, [], ◌∷◌, ◌++◌, length, replicate,
  if◌then◌else◌, Option, none, some, codes, Result, ok, err,
}
use go_smsc_simulator.Smpp.Commands.{
  bind_transmitter, bind_receiver, bind_transmitter_resp, bind_receiver_resp, bind_transceiver_resp,
}
use go_smsc_simulator.Smpp.Pdu.{Pdu}
use go_smsc_simulator.Smpp.Encode.{EdgeCaseKind, encode, encode_edge_case}
use go_smsc_simulator.Config.Enums.{Profile, profile_eq}
use go_smsc_simulator.Config.Schema.{VirtualSmscConfig, ScheduledTransition, ScheduledDisconnect}
use go_smsc_simulator.Scenario.Mix.{DlrOutcome}
use go_smsc_simulator.Scenario.Engine.{Engine, BindState}
use go_smsc_simulator.Schedule.{Runner}
use go_smsc_simulator.Recorder.{Recorder}
use go_smsc_simulator.Smsc.Binds.{BindInfo}
use go_smsc_simulator.Smsc.CloseReason.{CloseReason}

pub data SessionState : Type 0 where
  open_state bound_state closed_state : SessionState

-- A channel that a deferred response closes when it is queued is known by its number.
pub record DlrEvent : Type 0 where
  pub message_id : List ℕ
  pub outcome : DlrOutcome
  pub origin_tick : ℕ
  pub due_tick : ℕ
  pub source_addr : List ℕ
  pub source_addr_ton : ℕ
  pub source_addr_npi : ℕ
  pub dest_addr : List ℕ
  pub dest_addr_ton : ℕ
  pub dest_addr_npi : ℕ
  pub text : List ℕ
  pub resp_sent : Option ℕ

pub record MoPayload : Type 0 where
  pub source_addr : List ℕ
  pub dest_addr : List ℕ
  pub content : List ℕ

pub data Payload : Type 0 where
  dlr_event : DlrEvent → Payload
  mo_event : MoPayload → Payload

pub data Kind : Type 0 where
  kind_resp kind_dlr kind_mo : Kind

-- When the octets go to the writer: at once, after a latency (closing a channel), or when a channel
-- is closed.
pub data Release : Type 0 where
  at_once : Release
  after_latency : ℕ → ℕ → Release
  after_channel : ℕ → Release

pub record Output : Type 0 where
  pub bytes : List ℕ
  pub kind : Kind
  pub release : Release

-- `sent` tells of a channel whether it is closed by now; `chaos` is the unseeded source.
pub record Env (S : Type 0) : Type 0 where
  pub now : ℕ
  pub sent : ℕ → Bool
  pub chaos : S × ℕ
  pub format_minutes : ℕ → List ℕ
  pub quit_before_read : Bool
  pub quit_after_read : Bool
  pub quit_serving : Bool
  pub silent : Bool
  pub deadline_passed : Bool

pub record Session (S F : Type 0) : Type 0 where
  pub id : ℕ
  pub state : SessionState
  pub bind_type : List ℕ
  pub can_submit : Bool
  pub can_receive : Bool
  pub system_id : List ℕ
  pub per_bind_clock : ℕ
  pub scenario_state : Option (BindState S)
  pub current_engine : Option (Engine F)
  pub transitions : List ScheduledTransition
  pub transition_cursor : ℕ
  pub disconnects : List ScheduledDisconnect
  pub disconnect_cursor : ℕ
  pub sched : Runner Payload
  pub channels : ℕ
  pub close_reason : Option CloseReason
  pub pdus_read : ℕ

pub record VirtualSmsc (F : Type 0) : Type 0 where
  pub cfg : VirtualSmscConfig F
  pub recorder : Recorder
  pub scenario : Engine F
  pub engines : List (Profile × Engine F)
  pub binds : List BindInfo
  pub active_profile : Profile
  pub logical_clock : ℕ
  pub bind_seq : ℕ

-- The session, its virtual SMSC, and what the session has queued for the writer so far.
pub record World (S F : Type 0) : Type 0 where
  pub session : Session S F
  pub smsc : VirtualSmsc F
  pub out : List Output

unfoldable pub lookup_engine :
    {F : Type 0} → Profile → List (Profile × Engine F) → Option (Engine F)
lookup_engine p [] = none
lookup_engine p ((q, e) ∷ es) =
    let rest = lookup_engine p es in if profile_eq q p then some e else rest

-- `encode`: an error is logged and yields nil.
abbrev pub ok_bytes : {E : Type 0} → Result E (List ℕ) → Option (List ℕ)
ok_bytes (ok b) = some b
ok_bytes (err e) = none

unfoldable pub encode_pdu : Pdu → Option EdgeCaseKind → Option (List ℕ)
encode_pdu p none = ok_bytes (encode p)
encode_pdu p (some kind) = ok_bytes (encode_edge_case p kind)

-- `latencyDuration`
abbrev pub max_served_latency_ms : ℕ
max_served_latency_ms = 86_400_000

abbrev pub latency_duration : ℕ → ℕ
latency_duration ms = if ltb max_served_latency_ms ms then max_served_latency_ms else ms

module _ {S F : Type 0} where
  unfoldable pub close_with : CloseReason → World S F → World S F
  close_with reason w = record w {
    session = record w.session { state = closed_state; close_reason = some reason };
  }

  unfoldable pub queue : Release → Kind → List ℕ → World S F → World S F
  queue release kind b w = record w {
    out = w.out ++ record { bytes = b; kind = kind; release = release } ∷ [];
  }

  -- `sendKind`
  unfoldable pub send_kind : Pdu → Kind → World S F → World S F
  send_kind p kind w = elim (encode_pdu p none) [ none ↦ w | some b ↦ queue at_once kind b w ]

  unfoldable pub send : Pdu → World S F → World S F
  unfolding send_kind
  send p w = send_kind p kind_resp w

  -- `respond`: the world after it, and the channel.
  unfoldable pub respond : Option (List ℕ) → ℕ → World S F → World S F × Option ℕ
  respond none ms w = (w, none)
  respond (some b) ms w = if ms == 0 then (queue at_once kind_resp b w, none) else (
    queue (after_latency (latency_duration ms) w.session.channels) kind_resp b
        (record w { session = record w.session { channels = w.session.channels + 1 } }),
    some w.session.channels,
  )

-- `%d` of a uint64, which has at most 20 digits.
unfoldable pub digits : ℕ → ℕ → List ℕ → List ℕ
digits zero n acc = acc
digits (suc k) n acc =
    let more = digits k (n / 10) ((48 + n % 10) ∷ acc) in
    if n / 10 == 0 then (48 + n % 10) ∷ acc else more

abbrev pub decimal : ℕ → List ℕ
decimal n = digits 20 n []

abbrev pub padded : ℕ → List ℕ → List ℕ
padded width ds = replicate (width - length ds) 48 ++ ds

unfoldable pub message_id_of : ℕ → ℕ → List ℕ
unfolding digits
message_id_of id clock = decimal id ++ codes "-" ++ padded 4 (decimal clock)

-- The name of a bind's type, and the command of its response.
unfoldable pub bind_kind : ℕ → List ℕ × ℕ
bind_kind c =
    if c == bind_transmitter
    then (codes "transmitter", bind_transmitter_resp)
    else if c == bind_receiver
    then (codes "receiver", bind_receiver_resp)
    else (codes "transceiver", bind_transceiver_resp)
