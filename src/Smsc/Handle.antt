-- ===== src/Smsc/Handle.antt =====
-- internal/smsc/session.go: what a session does with a PDU.
use go_smsc_simulator.Common.{
  ℕ, ◌+◌, ◌%◌, ◌^◌, ◌==◌, Bool, true, false, not, ◌&&◌, ◌||◌, List, [], if◌then◌else◌, Option, none,
  some, bytes_eq,
}
use go_smsc_simulator.Smpp.Commands.{
  bind_transmitter, bind_receiver, bind_transceiver, submit_sm, enquire_link, enquire_link_resp,
  unbind, unbind_resp, deliver_sm_resp, generic_nack, status_rok, status_inv_cmd_id,
  status_inv_bnd_sts, status_sys_err, status_bind_fail,
}
use go_smsc_simulator.Smpp.Pdu.{Bind, Body, Pdu, bind, bind_resp}
use go_smsc_simulator.Rng.{Rand}
use go_smsc_simulator.Scenario.Engine.{reject_bind, new_bind_state}
use go_smsc_simulator.Smsc.Binds.{add}
use go_smsc_simulator.Smsc.CloseReason.{CloseReason, client_unbind, auth_failed, bind_rejected}
use go_smsc_simulator.Smsc.Session.{
  SessionState, open_state, bound_state, Env, World, close_with, send, bind_kind,
}
use go_smsc_simulator.Smsc.Events.{schedule_configured_events}
use go_smsc_simulator.Smsc.Submit.{answer, handle_submit}

abbrev pub is_open : SessionState → Bool
is_open open_state = true
is_open _ = false

-- The type assertion on the body of a bind.
abbrev pub as_bind : Option Body → Option Bind
as_bind (some (bind b)) = some b
as_bind _ = none

module _ {S F : Type 0} where
  -- The bind that is turned away: the type labels the close.
  abbrev pub refuse : CloseReason → List ℕ → List ℕ → Pdu → World S F → World S F
  refuse reason bind_type system_id reply w = close_with reason (
      send reply
        (record w { session = record w.session { bind_type = bind_type; system_id = system_id } }))

module _ (R : Rand) where
  open R use {Source, Float}

  unfoldable pub accept_bind :
      Env Source → ℕ → List ℕ → List ℕ → World Source Float → World Source Float
  accept_bind env command system_id bind_type w =
      let id = (w.smsc.bind_seq + 1) % 2 ^ 64 in
      schedule_configured_events (record w {
        session = record w.session {
          id = id;
          state = bound_state;
          system_id = system_id;
          bind_type = bind_type;
          can_submit = not (command == bind_receiver);
          can_receive = not (command == bind_transmitter);
          scenario_state =
              some (new_bind_state R w.smsc.scenario w.smsc.cfg.seed w.smsc.cfg.name id env.chaos);
          current_engine = some w.smsc.scenario;
        };
        smsc = record w.smsc {
          bind_seq = id;
          binds =
              add (record { id = id; system_id = system_id; bind_type = bind_type }) w.smsc.binds;
        };
      })

  unfoldable pub authenticate : Env Source → Pdu → Bind → World Source Float → World Source Float
  unfolding accept_bind
  authenticate env p b w =
      let (bind_type, resp) = bind_kind p.command_id in
      let creds = w.smsc.cfg.bind_credentials in
      if reject_bind w.smsc.scenario
      then refuse bind_rejected bind_type w.session.system_id
          (answer resp status_bind_fail p.sequence_number none) w
      else if bytes_eq b.system_id creds.system_id && bytes_eq b.password creds.password
      then send
          (answer resp status_rok p.sequence_number
            (some (bind_resp (record { system_id = w.smsc.cfg.name; tlvs = [] }))))
          (accept_bind env p.command_id b.system_id bind_type w)
      else refuse auth_failed bind_type b.system_id
          (answer resp status_bind_fail p.sequence_number none) w

  unfoldable pub handle_bind : Env Source → Pdu → World Source Float → World Source Float
  unfolding authenticate
  handle_bind env p w =
      let resp = (bind_kind p.command_id).1 in
      if not (is_open w.session.state)
      then send (answer resp status_inv_bnd_sts p.sequence_number none) w
      else elim (as_bind p.body) [
        | none ↦ send (answer resp status_sys_err p.sequence_number none) w
        | some b ↦ authenticate env p b w
      ]

  unfoldable pub handle : Env Source → Pdu → World Source Float → World Source Float
  unfolding handle_bind handle_submit
  handle env p w =
      if p.command_id == bind_transmitter
        || p.command_id == bind_receiver
        || p.command_id == bind_transceiver
      then handle_bind env p w
      else if p.command_id == submit_sm
      then handle_submit R env p w
      else if p.command_id == enquire_link
      then send (answer enquire_link_resp status_rok p.sequence_number none) w
      else if p.command_id == unbind
      then close_with client_unbind (send (answer unbind_resp status_rok p.sequence_number none) w)
      else if p.command_id == deliver_sm_resp
      then w
      else send (answer generic_nack status_inv_cmd_id p.sequence_number none) w
