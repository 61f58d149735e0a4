-- ===== src/Smsc/ReadLoop.antt =====
-- internal/smsc/session.go: what the read loop does with what it read, and its rounds.
use go_smsc_simulator.Common.{
  ℕ, ◌+◌, ◌%◌, ◌^◌, ◌==◌, Bool, true, false, not, List, [], ◌∷◌, drop, if◌then◌else◌, none, Result,
  ok, err,
}
use go_smsc_simulator.Smpp.Commands.{
  generic_nack, is_response, response, status_inv_msg_len, status_inv_cmd_len, status_inv_cmd_id,
  status_sys_err,
}
use go_smsc_simulator.Smpp.Pdu.{Pdu}
use go_smsc_simulator.Smpp.Reader.{
  CodecError, bad_short_message, truncated, unknown_command, eof, bad_command_length, partial_frame,
  timeout,
}
use go_smsc_simulator.Smpp.Encode.{u32_of}
use go_smsc_simulator.Smpp.Decode.{decode}
use go_smsc_simulator.Rng.{Rand}
use go_smsc_simulator.Schedule.{len}
use go_smsc_simulator.Smsc.CloseReason.{
  CloseReason, client_eof, read_error, idle_timeout, partial_frame_timeout, protocol_error,
  shutdown,
}
use go_smsc_simulator.Smsc.Session.{Env, World, close_with, send}
use go_smsc_simulator.Smsc.Events.{is_closed, flush_schedule}
use go_smsc_simulator.Smsc.Submit.{answer}
use go_smsc_simulator.Smsc.Handle.{handle}

-- The status for a body that failed to decode.
unfoldable pub malformed_status : CodecError → ℕ
malformed_status bad_short_message = status_inv_msg_len
malformed_status truncated = status_inv_cmd_len
malformed_status e = status_sys_err

module _ {S F : Type 0} where
  -- `rejectMalformed`, on the fields of the frame.
  unfoldable pub reject_malformed_id : ℕ → ℕ → CodecError → World S F → World S F
  reject_malformed_id id seq unknown_command w =
      send (answer generic_nack status_inv_cmd_id seq none) w
  reject_malformed_id id seq e w =
      if is_response id then w else send (answer (response id) (malformed_status e) seq none) w

  unfoldable pub reject_malformed : List ℕ → CodecError → World S F → World S F
  unfolding reject_malformed_id
  reject_malformed frame e w =
      reject_malformed_id (u32_of (drop 4 frame)) (u32_of (drop 12 frame)) e w

module _ (R : Rand) where
  open R use {Source, Float}

  -- `readFailure`
  unfoldable pub read_failure : Env Source → CodecError → CloseReason
  read_failure env e = if env.quit_after_read then shutdown else elim e [
    | eof ↦ client_eof
    | bad_command_length ↦ protocol_error
    | partial_frame ↦ if env.deadline_passed then partial_frame_timeout else read_error
    | _ ↦ read_error
  ]

  abbrev pub is_protocol_error : CloseReason → Bool
  is_protocol_error protocol_error = true
  is_protocol_error _ = false

  unfoldable pub fail_read : Env Source → CodecError → World Source Float → World Source Float
  unfolding read_failure
  fail_read env timeout w =
      if env.quit_after_read
      then close_with shutdown w
      else if not (len w.session.sched == 0)
      then (if env.silent then flush_schedule env w else w)
      else close_with idle_timeout w
  fail_read env e w =
      let w' = close_with (read_failure env e) w in
      if is_protocol_error (read_failure env e)
      then send (answer generic_nack status_inv_cmd_len 0 none) w'
      else w'

  abbrev pub count_read : World Source Float → World Source Float
  count_read w = record w {
    session = record w.session { pdus_read = (w.session.pdus_read + 1) % 2 ^ 64 };
  }

  abbrev pub handle_frame :
      Env Source → List ℕ → Result CodecError Pdu → World Source Float → World Source Float
  handle_frame env frame (err e) w = reject_malformed frame e w
  handle_frame env frame (ok p) w = handle R env p w

  -- One round of `readLoop`: what ReadPDU returned, if shutdown did not end the loop before.
  unfoldable pub read_round :
      Env Source → Result CodecError (List ℕ) → World Source Float → World Source Float
  unfolding fail_read handle
  read_round env arrival w =
      let read : World Source Float = elim arrival [
        | err e ↦ fail_read env e w
        | ok frame ↦ handle_frame env frame (decode frame) (count_read w)
      ] in
      if env.quit_before_read then close_with shutdown w else read

  -- The loop, which ends when the session is closed.
  unfoldable pub read_loop :
      List (Env Source × Result CodecError (List ℕ)) → World Source Float → World Source Float
  unfolding read_round
  read_loop [] w = w
  read_loop ((env, arrival) ∷ rest) w =
      let w' = read_round env arrival w in
      let later = read_loop rest w' in if is_closed w'.session.state then w' else later
