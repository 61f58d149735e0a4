-- ===== src/Smsc/Registry/Round.antt =====
-- What one round of a session does to the registry.
use go_smsc_simulator.Common.{
  ℕ, ◌==◌, ◌≡◌, refl, ◌∙◌, arith, true, false, not, ◌&&◌, ◌||◌, List, Option, none, some, if_both,
  if◌then◌else◌, Bool-cases, Option-cases, inl, inr, Result, ok, err, bytes_eq,
}
use go_smsc_simulator.Rng.{Rand}
use go_smsc_simulator.Schedule.{len}
use go_smsc_simulator.Smpp.Commands.{generic_nack, status_inv_cmd_len}
use go_smsc_simulator.Smpp.Pdu.{Bind, Message, Pdu}
use go_smsc_simulator.Smpp.Reader.{CodecError, timeout}
use go_smsc_simulator.Smpp.Decode.{decode}
use go_smsc_simulator.Scenario.Engine.{Engine, BindState, reject_bind}
use go_smsc_simulator.Smsc.Binds.{BindInfo, add}
use go_smsc_simulator.Smsc.CloseReason.{shutdown, idle_timeout}
use go_smsc_simulator.Smsc.Session.{Env, World, close_with, send}
use go_smsc_simulator.Smsc.Events.{apply_due_transitions, schedule_configured_events}
use go_smsc_simulator.Smsc.Submit.{answer, as_message, is_bound, evaluate_submit, handle_submit}
use go_smsc_simulator.Smsc.Handle.{as_bind, is_open, accept_bind, authenticate, handle_bind, handle}
use go_smsc_simulator.Smsc.ReadLoop.{
  reject_malformed, read_failure, is_protocol_error, fail_read, handle_frame, count_read,
  read_round,
}
use go_smsc_simulator.Smsc.Corpus.{next_tick}
use go_smsc_simulator.Smsc.Quiet.{send-Quiet, flush_schedule-Quiet}
use go_smsc_simulator.Smsc.Steady.{
  Same, Same-refl, Same-trans, Steady, Steady-refl, Steady-trans, Quiet-Steady, close_with-Steady,
  decided-Steady, transitions-Steady, refuse-Steady, malformed-Steady,
}

module _ {S F : Type 0} where
  -- A session that was open has taken the next id, and is in the registry under it.
  pub record Bound (w w' : World S F) : Type 0 where
    pub open_before : is_open w.session.state ≡ true
    pub shut : is_open w'.session.state ≡ false
    pub id : w'.session.id ≡ next_tick w.smsc.bind_seq
    pub seq : w'.smsc.bind_seq ≡ next_tick w.smsc.bind_seq
    pub info : BindInfo
    pub info_id : info.id ≡ next_tick w.smsc.bind_seq
    pub binds : w'.smsc.binds ≡ add info w.smsc.binds

  pub data Registers (w w' : World S F) : Type 0 where
    stays : Same w w' → Registers w w'
    binds : Bound w w' → Registers w w'

  Bound-Same : {u v w : World S F} → Bound u v → Same v w → Bound u w
  Bound-Same b k = record {
    open_before = b.open_before;
    shut = let x = b.shut in let y = k.shut in ground (arith, x, y);
    id = k.id ∙ b.id;
    seq = k.seq ∙ b.seq;
    info = b.info;
    info_id = b.info_id;
    binds = k.binds ∙ b.binds;
  }

  steadily : {w w' : World S F} → Steady w w' → Registers w w'
  steadily k = stays k.same

module _ (R : Rand) where
  open R use {Source, Float}

  accept-Bound :
      (env : Env Source) (command : ℕ) (id kind : List ℕ) (w : World Source Float)
      → is_open w.session.state ≡ true
      → Bound w (accept_bind R env command id kind w)
  unfolding accept_bind schedule_configured_events
  accept-Bound env command id kind w h = record {
    open_before = h;
    shut = refl;
    id = refl;
    seq = refl;
    info = record { id = next_tick w.smsc.bind_seq; system_id = id; bind_type = kind };
    info_id = refl;
    binds = refl;
  }

  authenticate-Registers :
      (env : Env Source) (p : Pdu) (b : Bind) (w : World Source Float)
      → is_open w.session.state ≡ true
      → Registers w (authenticate R env p b w)
  unfolding authenticate
  authenticate-Registers env p b w h =
      if_both (Registers w) (reject_bind w.smsc.scenario) (steadily (refuse-Steady _ _ _ _ w)) (
        if_both (Registers w)
          (bytes_eq b.system_id w.smsc.cfg.bind_credentials.system_id
            && bytes_eq b.password w.smsc.cfg.bind_credentials.password)
          (binds (
            Bound-Same (accept-Bound env p.command_id _ _ w h)
              (Quiet-Steady (send-Quiet _ _)).same))
          (steadily (refuse-Steady _ _ _ _ w)))

  bind-Registers :
      (env : Env Source) (p : Pdu) (w : World Source Float) → Registers w (handle_bind R env p w)
  unfolding handle_bind
  bind-Registers env p w = elim (Bool-cases (is_open w.session.state)) [
    | inr shut ↦ rw shut (steadily (Quiet-Steady (send-Quiet _ w)))
    | inl fresh ↦ rw fresh (elim (Option-cases (as_bind p.body)) [
      | inl other ↦ rw other (steadily (Quiet-Steady (send-Quiet _ w)))
      | inr (b, e) ↦ rw e (authenticate-Registers env p b w fresh)
    ])
  ]

  evaluate-Same :
      (env : Env Source) (seq tick : ℕ) (msg : Message) (e : Option (Engine Float))
      (st : Option (BindState Source)) (w : World Source Float)
      → Same w (evaluate_submit R env seq tick msg e st w)
  unfolding evaluate_submit
  evaluate-Same env seq tick msg none st w = (close_with-Steady _ w).same
  evaluate-Same env seq tick msg (some e) none w = (close_with-Steady _ w).same
  evaluate-Same env seq tick msg (some e) (some st) w =
      Same-trans (record { id = refl; binds = refl; seq = refl; shut = ground arith })
        (decided-Steady env seq tick msg _ _).same

  submit-Same :
      (env : Env Source) (p : Pdu) (w : World Source Float) → Same w (handle_submit R env p w)
  unfolding handle_submit apply_due_transitions
  submit-Same env p w =
      if_both (Same w) (not (is_bound w.session.state) || not w.session.can_submit)
        (Quiet-Steady (send-Quiet _ w)).same
        (elim (Option-cases (as_message p.body)) [
          | inl other ↦ rw other (Quiet-Steady (send-Quiet _ w)).same
          | inr (msg, e) ↦ rw e (
              Same-trans (transitions-Steady _ _ w).same
                (evaluate-Same env p.sequence_number _ msg _ _ _))
        ])

  handle-Registers :
      (env : Env Source) (p : Pdu) (w : World Source Float) → Registers w (handle R env p w)
  unfolding handle
  handle-Registers env p w =
      let sent : (q : Pdu) → Registers w (send q w) =
        λ q. steadily (Quiet-Steady (send-Quiet q w)) in
      if_both (Registers w) _ (bind-Registers env p w) (
        if_both (Registers w) _ (stays (submit-Same env p w)) (
          if_both (Registers w) _ (sent _) (
            if_both (Registers w) _
              (steadily (Steady-trans (Quiet-Steady (send-Quiet _ w)) (close_with-Steady _ _)))
              (if_both (Registers w) _ (stays (Same-refl w)) (sent _)))))

  failure-Steady :
      (env : Env Source) (e : CodecError) (w : World Source Float)
      → Steady w (
          if is_protocol_error R (read_failure R env e)
          then send
              (answer generic_nack status_inv_cmd_len 0 none)
              (close_with (read_failure R env e) w)
          else close_with (read_failure R env e) w)
  failure-Steady env e w =
      let c = close_with-Steady (read_failure R env e) w in
      if_both (Steady w) (is_protocol_error R (read_failure R env e))
        (Steady-trans c (Quiet-Steady (send-Quiet _ _))) c

  fail_read-Steady :
      (env : Env Source) (e : CodecError) (w : World Source Float) → Steady w (fail_read R env e w)
  unfolding fail_read
  fail_read-Steady env timeout w =
      if_both (Steady w) env.quit_after_read (close_with-Steady shutdown w) (
        if_both (Steady w) (not (len w.session.sched == 0))
          (if_both (Steady w) env.silent (Quiet-Steady (flush_schedule-Quiet env w))
            (Steady-refl w))
          (close_with-Steady idle_timeout w))
  fail_read-Steady env e w = failure-Steady env e w

  frame-Registers :
      (env : Env Source) (frame : List ℕ) (x : Result CodecError Pdu) (w : World Source Float)
      → Registers w (handle_frame R env frame x w)
  unfolding reject_malformed
  frame-Registers env frame (err e) w = steadily (malformed-Steady _ _ e w)
  frame-Registers env frame (ok p) w = handle-Registers env p w

  counted :
      {w : World Source Float} {w' : World Source Float}
      → Registers (count_read R w) w'
      → Registers w w'
  counted (stays k) = stays (record { id = k.id; binds = k.binds; seq = k.seq; shut = k.shut })
  counted (binds b) = binds (record {
    open_before = b.open_before;
    shut = b.shut;
    id = b.id;
    seq = b.seq;
    info = b.info;
    info_id = b.info_id;
    binds = b.binds;
  })

  -- A round leaves the session's place in the registry, or it is the one in which it binds.
  pub round-Registers :
      (env : Env Source) (arrival : Result CodecError (List ℕ)) (w : World Source Float)
      → Registers w (read_round R env arrival w)
  unfolding read_round
  round-Registers env (err e) w =
      if_both (Registers w) env.quit_before_read (steadily (close_with-Steady shutdown w))
        (steadily (fail_read-Steady env e w))
  round-Registers env (ok frame) w =
      if_both (Registers w) env.quit_before_read (steadily (close_with-Steady shutdown w))
        (counted (frame-Registers env frame (decode frame) (count_read R w)))
