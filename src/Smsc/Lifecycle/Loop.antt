-- ===== src/Smsc/Lifecycle/Loop.antt =====
-- The life of a session, round by round of its read loop.
use go_smsc_simulator.Common.{
  ℕ, ◌==◌, ◌≡◌, ◌≢◌, refl, arith, true, false, not, ◌&&◌, List, [], ◌∷◌, if◌then◌else◌, Option,
  none, some, Bool-cases, Option-cases, if_both, inl, inr, bytes_eq, Result, ok, err,
}
use go_smsc_simulator.Rng.{Rand}
use go_smsc_simulator.Smpp.Commands.{generic_nack, status_inv_cmd_len}
use go_smsc_simulator.Smpp.Pdu.{Bind, Message, Pdu}
use go_smsc_simulator.Smpp.Reader.{
  CodecError, short_pdu, bad_command_length, truncated, unterminated, unknown_command,
  bad_short_message, too_many_tlvs, partial_frame, eof, unexpected_eof, timeout, transport,
}
use go_smsc_simulator.Smpp.Decode.{decode}
use go_smsc_simulator.Schedule.{len}
use go_smsc_simulator.Scenario.Engine.{Engine, BindState, reject_bind}
use go_smsc_simulator.Smsc.CloseReason.{
  panic, shutdown, bind_rejected, auth_failed, client_unbind, idle_timeout,
}
use go_smsc_simulator.Smsc.Session.{Env, World, close_with, send}
use go_smsc_simulator.Smsc.Events.{is_closed, apply_due_transitions, schedule_configured_events}
use go_smsc_simulator.Smsc.Submit.{answer, as_message, is_bound, evaluate_submit, handle_submit}
use go_smsc_simulator.Smsc.Handle.{as_bind, is_open, accept_bind, authenticate, handle_bind, handle}
use go_smsc_simulator.Smsc.ReadLoop.{
  reject_malformed, read_failure, is_protocol_error, fail_read, handle_frame, read_round, read_loop,
}
use go_smsc_simulator.Smsc.Quiet.{flush_schedule-Quiet}
use go_smsc_simulator.Smsc.Lifecycle.{
  is_some, is_panic, Live, Live-Quiet, Live-closed, Live-decided, Prepared, prepare,
  transitions_keep, Live-refuse, Live-malformed, Live-sent,
}

module _ (R : Rand) where
  open R use {Source, Float}

  abbrev W : Type 0
  W = World Source Float

  Live-accept :
      (env : Env Source) (command : ℕ) (id kind : List ℕ) (w : W)
      → Live w
      → Live (accept_bind R env command id kind w)
  unfolding accept_bind schedule_configured_events
  Live-accept env command id kind w v = record { holds = let e = v.holds in ground (arith, e) }

  Live-authenticate :
      (env : Env Source) (p : Pdu) (b : Bind) (w : W) → Live w → Live (authenticate R env p b w)
  unfolding authenticate
  Live-authenticate env p b w v =
      if_both Live (reject_bind w.smsc.scenario) (Live-refuse bind_rejected _ _ _ w refl) (
        if_both Live
          (bytes_eq b.system_id w.smsc.cfg.bind_credentials.system_id
            && bytes_eq b.password w.smsc.cfg.bind_credentials.password)
          (Live-sent _ _ (Live-accept env p.command_id _ _ w v))
          (Live-refuse auth_failed _ _ _ w refl))

  Live-bind : (env : Env Source) (p : Pdu) (w : W) → Live w → Live (handle_bind R env p w)
  unfolding handle_bind
  Live-bind env p w v =
      if_both Live (not (is_open w.session.state)) (Live-sent _ w v)
        (elim (Option-cases (as_bind p.body)) [
          | inl other ↦ rw other (Live-sent _ w v)
          | inr (b, e) ↦ rw e (Live-authenticate env p b w v)
        ])

  Live-evaluate :
      (env : Env Source) (seq tick : ℕ) (msg : Message) (e : Option (Engine Float))
      (st : Option (BindState Source)) (w : W)
      → Live w
      → is_some e ≡ true
      → is_some st ≡ true
      → Live (evaluate_submit R env seq tick msg e st w)
  unfolding evaluate_submit
  Live-evaluate env seq tick msg (some e) (some st) w v h k =
      Live-decided env seq tick msg _ _ refl
        (record { holds = let x = v.holds in ground (arith, x) })
  Live-evaluate env seq tick msg none st w v h k = cc
  Live-evaluate env seq tick msg (some e) none w v h k = cc

  Live-submit_of :
      (env : Env Source) (seq tick : ℕ) (msg : Message) (w : W)
      → Live w × Prepared w
      → Live
          (evaluate_submit R env seq tick msg w.session.current_engine w.session.scenario_state w)
  Live-submit_of env seq tick msg w (v, (st, e)) = Live-evaluate env seq tick msg _ _ w v e st

  Live-submit : (env : Env Source) (p : Pdu) (w : W) → Live w → Live (handle_submit R env p w)
  unfolding handle_submit apply_due_transitions
  Live-submit env p w v = elim (Bool-cases (is_bound w.session.state)) [
    | inr unbound ↦ rw unbound (Live-sent _ w v)
    | inl bound ↦ rw bound (
        if_both Live (not w.session.can_submit) (Live-sent _ w v)
          (elim (Option-cases (as_message p.body)) [
            | inl other ↦ rw other (Live-sent _ w v)
            | inr (msg, e) ↦ rw e (
                Live-submit_of env p.sequence_number _ msg _
                  (transitions_keep _ _ w v (prepare w v bound)))
          ]))
  ]

  Live-handle : (env : Env Source) (p : Pdu) (w : W) → Live w → Live (handle R env p w)
  unfolding handle
  Live-handle env p w v = if_both Live _ (Live-bind env p w v) (
      if_both Live _ (Live-submit env p w v) (
        if_both Live _ (Live-sent _ w v)
          (if_both Live _ (Live-closed client_unbind _ refl) (if_both Live _ v (Live-sent _ w v)))))

  read_failure_calm :
      (env : Env Source) (e : CodecError) → is_panic (some (read_failure R env e)) ≡ false
  unfolding read_failure
  read_failure_calm env e = ground arith

  Live-failure :
      (env : Env Source) (e : CodecError) (w : W)
      → Live (
          if is_protocol_error R (read_failure R env e)
          then send
              (answer generic_nack status_inv_cmd_len 0 none)
              (close_with (read_failure R env e) w)
          else close_with (read_failure R env e) w)
  Live-failure env e w =
      let c = Live-closed (read_failure R env e) w (read_failure_calm env e) in
      if_both Live (is_protocol_error R (read_failure R env e)) (Live-sent _ _ c) c

  Live-fail_read : (env : Env Source) (e : CodecError) (w : W) → Live w → Live (fail_read R env e w)
  unfolding fail_read
  Live-fail_read env timeout w v = if_both Live env.quit_after_read (Live-closed shutdown w refl) (
      if_both Live (not (len w.session.sched == 0))
        (if_both Live env.silent (Live-Quiet (flush_schedule-Quiet env w) v) v)
        (Live-closed idle_timeout w refl))
  Live-fail_read env short_pdu w v = Live-failure env short_pdu w
  Live-fail_read env bad_command_length w v = Live-failure env bad_command_length w
  Live-fail_read env truncated w v = Live-failure env truncated w
  Live-fail_read env unterminated w v = Live-failure env unterminated w
  Live-fail_read env unknown_command w v = Live-failure env unknown_command w
  Live-fail_read env bad_short_message w v = Live-failure env bad_short_message w
  Live-fail_read env too_many_tlvs w v = Live-failure env too_many_tlvs w
  Live-fail_read env partial_frame w v = Live-failure env partial_frame w
  Live-fail_read env eof w v = Live-failure env eof w
  Live-fail_read env unexpected_eof w v = Live-failure env unexpected_eof w
  Live-fail_read env transport w v = Live-failure env transport w

  Live-frame :
      (env : Env Source) (frame : List ℕ) (x : Result CodecError Pdu) (w : W)
      → Live w
      → Live (handle_frame R env frame x w)
  unfolding reject_malformed
  Live-frame env frame (err e) w v = Live-malformed _ _ e w v
  Live-frame env frame (ok p) w v = Live-handle env p w v

  Live-round :
      (env : Env Source) (arrival : Result CodecError (List ℕ)) (w : W)
      → Live w
      → Live (read_round R env arrival w)
  unfolding read_round
  Live-round env (err e) w v =
      if_both Live env.quit_before_read (Live-closed shutdown w refl) (Live-fail_read env e w v)
  Live-round env (ok frame) w v =
      if_both Live env.quit_before_read (Live-closed shutdown w refl)
        (Live-frame env frame (decode frame) _ (record { holds = v.holds }))

  Live-loop :
      (rounds : List (Env Source × Result CodecError (List ℕ))) (w : W)
      → Live w
      → Live (read_loop R rounds w)
  unfolding read_loop
  Live-loop [] w v = v
  Live-loop ((env, arrival) ∷ rest) w v =
      let one = Live-round env arrival w v in
      if_both Live (is_closed (read_round R env arrival w).session.state) one
        (Live-loop rest (read_round R env arrival w) one)

  never_panics : (w : W) → Live w → w.session.close_reason ≢ some panic
  never_panics w v h = let e = v.holds in ground (arith, e)

  -- Whatever arrives on a connection, in whatever rounds: a session that was live keeps being so,
  -- bound only with a scenario state and an engine and closed only for a reason, and it never
  -- ends in a panic of a nil scenario state or engine.
  pub read_loop-Live :
      (rounds : List (Env Source × Result CodecError (List ℕ))) (w : World Source Float)
      → Live w
      → Live (read_loop R rounds w) × ((read_loop R rounds w).session.close_reason ≢ some panic)
  read_loop-Live rounds w v = (Live-loop rounds w v, never_panics _ (Live-loop rounds w v))
