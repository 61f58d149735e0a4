-- ===== src/Smsc/Submit.antt =====
-- internal/smsc/session.go: a submit, its commit, its answer and what has come due behind it.
use go_smsc_simulator.Common.{
  ℕ, ◌+◌, ◌%◌, ◌^◌, ◌==◌, Bool, true, false, not, ◌&&◌, ◌||◌, List, if◌then◌else◌, Option, none,
  some,
}
use go_smsc_simulator.Smpp.Commands.{submit_sm_resp, status_rok, status_inv_bnd_sts, status_sys_err}
use go_smsc_simulator.Smpp.Pdu.{Message, Body, Pdu, message, submit_resp}
use go_smsc_simulator.Rng.{Rand}
use go_smsc_simulator.Config.Enums.{DisconnectWhen}
use go_smsc_simulator.Scenario.Engine.{
  Outcome, outcome_success, outcome_error, outcome_timeout, outcome_disconnect, DlrPlan, Decision,
  Engine, BindState,
}
use go_smsc_simulator.Scenario.Evaluate.{evaluate}
use go_smsc_simulator.Config.Enums.{after_response}
use go_smsc_simulator.Recorder.{RecordedPdu, append}
use go_smsc_simulator.Smsc.CloseReason.{fault_injection, shutdown, panic}
use go_smsc_simulator.Smsc.Session.{
  SessionState, bound_state, Env, World, encode_pdu, close_with, send, respond, message_id_of,
}
use go_smsc_simulator.Smsc.Events.{
  schedule_dlr, drain_session, apply_due_transitions, due_disconnect_before_response, cut_if,
  apply_due_disconnects,
}

abbrev pub answer : ℕ → ℕ → ℕ → Option Body → Pdu
answer command status sequence body = record {
  command_id = command;
  command_status = status;
  sequence_number = sequence;
  body = body;
}

abbrev pub is_bound : SessionState → Bool
is_bound bound_state = true
is_bound _ = false

abbrev pub is_after_response : DisconnectWhen → Bool
is_after_response after_response = true
is_after_response _ = false

abbrev pub is_disconnect : Outcome → Bool
is_disconnect outcome_disconnect = true
is_disconnect _ = false

abbrev pub record_of : List ℕ → Message → ℕ → RecordedPdu
record_of message_id msg clock = record {
  index = 0;
  message_id = message_id;
  source_addr = msg.source_addr;
  source_ton = msg.source_addr_ton;
  source_npi = msg.source_addr_npi;
  dest_addr = msg.dest_addr;
  dest_ton = msg.dest_addr_ton;
  dest_npi = msg.dest_addr_npi;
  data_coding = msg.data_coding;
  short_message = msg.short_message;
  per_bind_clock = clock;
}

-- The type assertion on the body of a submit.
abbrev pub as_message : Option Body → Option Message
as_message (some (message m)) = some m
as_message _ = none

-- `serveLatency`
abbrev pub serve_latency : {S : Type 0} → Env S → ℕ → Bool
serve_latency env ms = ms == 0 || not env.quit_serving

module _ {S F : Type 0} where
  -- The commit of a submit: both clocks, and the journal.
  unfoldable pub commit : ℕ → Message → World S F → World S F
  commit tick msg w = record w {
    session = record w.session { per_bind_clock = tick };
    smsc = record w.smsc {
      logical_clock = (w.smsc.logical_clock + 1) % 2 ^ 64;
      recorder = append w.smsc.recorder (record_of (message_id_of w.session.id tick) msg tick);
    };
  }

  abbrev pub plan_after : List ℕ → Message → Option DlrPlan → World S F × Option ℕ → World S F
  plan_after message_id msg none (w, sent) = w
  plan_after message_id msg (some plan) (w, sent) = schedule_dlr message_id msg plan sent w

  -- The end of a submit that did not disconnect: what has come due.
  unfoldable pub settle : Env S → World S F → World S F
  settle env w =
      let w' = drain_session env w.session.per_bind_clock w in
      apply_due_disconnects w'.session.per_bind_clock w'

  -- The switch on the outcome.
  unfoldable pub conclude :
      Env S → ℕ → List ℕ → Message → Decision → Outcome → World S F → World S F
  conclude env seq message_id msg d outcome_success w = settle env (
      plan_after message_id msg d.dlr (
        respond
          (encode_pdu
            (answer submit_sm_resp status_rok seq
              (some (submit_resp (record { message_id = message_id }))))
            d.edge_case)
          d.latency_ms w))
  conclude env seq message_id msg d outcome_error w =
      settle env
        (respond (encode_pdu (answer submit_sm_resp d.status seq none) d.edge_case) d.latency_ms
          w).0
  conclude env seq message_id msg d outcome_timeout w = settle env w
  conclude env seq message_id msg d outcome_disconnect w = close_with fault_injection (
      if is_after_response d.disconnect_when
      then send
          (answer submit_sm_resp status_rok seq
            (some (submit_resp (record { message_id = message_id }))))
          w
      else w)

  -- A submit once it is decided.
  unfoldable pub decided_submit : Env S → ℕ → ℕ → Message → Decision → World S F → World S F
  unfolding commit conclude
  decided_submit env seq tick msg d w =
      let w' = commit tick msg w in
      if is_disconnect d.outcome && not (serve_latency env d.latency_ms)
      then close_with shutdown w
      else cut_if (due_disconnect_before_response w') w'
          (conclude env seq (message_id_of w.session.id tick) msg d d.outcome w')

module _ (R : Rand) where
  open R use {Source, Float}

  -- `s.currentEngine.Evaluate(s.scenarioState, tick)`: a nil pointer panics, which ends the session.
  unfoldable pub evaluate_submit :
      Env Source
      → ℕ
      → ℕ
      → Message
      → Option (Engine Float)
      → Option (BindState Source)
      → World Source Float
      → World Source Float
  evaluate_submit env seq tick msg (some e) (some st) w =
      let (d, st') = evaluate R e st tick env.now in
      decided_submit env seq tick msg d
        (record w { session = record w.session { scenario_state = some st' } })
  evaluate_submit env seq tick msg _ _ w = close_with panic w

  unfoldable pub handle_submit : Env Source → Pdu → World Source Float → World Source Float
  unfolding evaluate_submit
  handle_submit env p w =
      if not (is_bound w.session.state) || not w.session.can_submit
      then send (answer submit_sm_resp status_inv_bnd_sts p.sequence_number none) w
      else elim (as_message p.body) [
        | none ↦ send (answer submit_sm_resp status_sys_err p.sequence_number none) w
        | some msg ↦
            let tick = (w.session.per_bind_clock + 1) % 2 ^ 64 in
            let w' = apply_due_transitions tick w in
            evaluate_submit env p.sequence_number tick msg w'.session.current_engine
              w'.session.scenario_state w'
      ]
