-- ===== src/Smsc/Replay/Round.antt =====
-- internal/smsc/session.go: a submit and a round of the read loop at other times.
use go_smsc_simulator.Common.{
  ℕ, ◌==◌, ◌≡◌, refl, sym, ap, ◌∙◌, false, not, List, if◌then◌else◌, Option, none, some, if_both,
  Result, ok, err,
}
use go_smsc_simulator.Rng.{Rand}
use go_smsc_simulator.Smpp.Commands.{generic_nack, status_inv_cmd_len}
use go_smsc_simulator.Smpp.Pdu.{Message, Pdu}
use go_smsc_simulator.Smpp.Reader.{CodecError, timeout}
use go_smsc_simulator.Smpp.Decode.{decode}
use go_smsc_simulator.Schedule.{len}
use go_smsc_simulator.Config.Accepted.Replay.{evaluate-ungated}
use go_smsc_simulator.Scenario.Engine.{Engine, BindState}
use go_smsc_simulator.Scenario.Evaluate.{evaluate}
use go_smsc_simulator.Smsc.CloseReason.{shutdown, idle_timeout}
use go_smsc_simulator.Smsc.Session.{Env, World, close_with, send}
use go_smsc_simulator.Smsc.Events.{apply_due_transitions, flush_schedule}
use go_smsc_simulator.Smsc.Submit.{
  answer, as_message, decided_submit, evaluate_submit, handle_submit,
}
use go_smsc_simulator.Smsc.Handle.{handle}
use go_smsc_simulator.Smsc.ReadLoop.{
  reject_malformed, read_failure, is_protocol_error, fail_read, handle_frame, count_read,
  read_round,
}
use go_smsc_simulator.Smsc.Quiet.{send-Quiet, flush_schedule-Quiet}
use go_smsc_simulator.Smsc.Replay.{reclock, flush-reclock, decided-reclock}
use go_smsc_simulator.Smsc.Steady.{
  Steady, Steady-refl, Steady-trans, Quiet-Steady, close_with-Steady, decided-Steady,
  transitions-Steady, malformed-Steady,
}
use go_smsc_simulator.Smsc.Replay.Ungated.{
  is_gated, not_gated, free_gate, with_state, Ungated, Ungated-Steady, Replayed, steadily, either,
  observed, bind-Replayed,
}

module _ (R : Rand) where
  open R use {Source, Float}

  abbrev W : Type 0
  W = World Source Float

  module _ (now : ℕ) (chaos : Source × ℕ) (env : Env Source) where
    evaluate-Replayed :
        (seq tick : ℕ) (msg : Message) (e : Option (Engine Float)) (st : Option (BindState Source))
        (w : W)
        → Ungated R w
        → is_gated R st ≡ false
        → Replayed R now chaos env (λ z. evaluate_submit R z seq tick msg e st w)
    unfolding evaluate_submit
    evaluate-Replayed seq tick msg none st w v h =
        steadily R now chaos env _ v (close_with-Steady _ w)
    evaluate-Replayed seq tick msg (some e) none w v h =
        steadily R now chaos env _ v (close_with-Steady _ w)
    evaluate-Replayed seq tick msg (some e) (some st) w v h =
        let (same, free) = evaluate-ungated R e st tick env.now now (not_gated R st h) in
        let fresh : Ungated R (with_state R (evaluate R e st tick env.now).1 w) = record {
          gate = free_gate R (evaluate R e st tick env.now).1 free;
          seeded = v.seeded;
          capless = v.capless;
        } in
        record {
          same =
              ap (λ r. decided_submit (reclock now chaos env) seq tick msg r.0 (with_state R r.1 w))
                (sym same)
              ∙ decided-reclock now chaos env seq tick msg _ _;
          ungated = Ungated-Steady R (decided-Steady env seq tick msg _ _) fresh;
        }

    message-Replayed :
        (p q : Pdu) (body : Option Message) (tick : ℕ) (w w' : W)
        → Ungated R w
        → Ungated R w'
        → Replayed R now chaos env (λ e. elim body [
          | none ↦ send q w
          | some msg ↦
              evaluate_submit R e p.sequence_number tick msg w'.session.current_engine
                w'.session.scenario_state w'
        ])
    message-Replayed p q none tick w w' v v' =
        steadily R now chaos env _ v (Quiet-Steady (send-Quiet q w))
    message-Replayed p q (some msg) tick w w' v v' = evaluate-Replayed _ tick msg _ _ w' v' v'.gate

    submit-Replayed :
        (p : Pdu) (w : W) → Ungated R w → Replayed R now chaos env (λ e. handle_submit R e p w)
    unfolding handle_submit apply_due_transitions
    submit-Replayed p w v =
        either R now chaos env _ _ _ (steadily R now chaos env _ v (Quiet-Steady (send-Quiet _ w)))
          (message-Replayed p _ (as_message p.body) _ w _ v
            (Ungated-Steady R (transitions-Steady _ _ w) v))

    handle-Replayed :
        (p : Pdu) (w : W) → Ungated R w → Replayed R now chaos env (λ e. handle R e p w)
    unfolding handle
    handle-Replayed p w v =
        let sent : (q : Pdu) → Replayed R now chaos env (λ e. send q w) =
          λ q. steadily R now chaos env _ v (Quiet-Steady (send-Quiet q w)) in
        either R now chaos env _ _ _ (bind-Replayed R now chaos env p w v) (
          either R now chaos env _ _ _ (submit-Replayed p w v) (
            either R now chaos env _ _ _ (sent _) (
              either R now chaos env _ _ _
                (steadily R now chaos env _ v
                  (Steady-trans (Quiet-Steady (send-Quiet _ w)) (close_with-Steady _ _)))
                (either R now chaos env _ _ _ (steadily R now chaos env w v (Steady-refl w))
                  (sent _)))))

    frame-Replayed :
        (frame : List ℕ) (x : Result CodecError Pdu) (w : W)
        → Ungated R w
        → Replayed R now chaos env (λ e. handle_frame R e frame x w)
    unfolding reject_malformed
    frame-Replayed frame (err e) w v = steadily R now chaos env _ v (malformed-Steady _ _ e w)
    frame-Replayed frame (ok p) w v = handle-Replayed p w v

    flush-Replayed : (w : W) → Ungated R w → Replayed R now chaos env (λ e. flush_schedule e w)
    flush-Replayed w v = record {
      same = flush-reclock now chaos env w;
      ungated = Ungated-Steady R (Quiet-Steady (flush_schedule-Quiet env w)) v;
    }

    failure-Replayed :
        (error : CodecError) (w : W)
        → Ungated R w
        → Replayed R now chaos env (λ e.
          if is_protocol_error R (read_failure R e error)
          then send
              (answer generic_nack status_inv_cmd_len 0 none)
              (close_with (read_failure R e error) w)
          else close_with (read_failure R e error) w)
    unfolding read_failure
    failure-Replayed error w v = record {
      same = refl;
      ungated =
          Ungated-Steady R
            (if_both (Steady w) (is_protocol_error R (read_failure R env error))
              (Steady-trans (close_with-Steady (read_failure R env error) w)
                (Quiet-Steady (send-Quiet _ _)))
              (close_with-Steady (read_failure R env error) w))
            v;
    }

    fail-Replayed :
        (error : CodecError) (w : W)
        → Ungated R w
        → Replayed R now chaos env (λ e. fail_read R e error w)
    unfolding fail_read
    fail-Replayed timeout w v =
        observed R now chaos env (λ e. e.quit_after_read) _ _ refl
          (steadily R now chaos env _ v (close_with-Steady shutdown w))
          (either R now chaos env (not (len w.session.sched == 0)) _ _
            (observed R now chaos env (λ e. e.silent) _ _ refl (flush-Replayed w v)
              (steadily R now chaos env w v (Steady-refl w)))
            (steadily R now chaos env _ v (close_with-Steady idle_timeout w)))
    fail-Replayed e w v = failure-Replayed e w v

    pub round-Replayed :
        (arrival : Result CodecError (List ℕ)) (w : W)
        → Ungated R w
        → Replayed R now chaos env (λ e. read_round R e arrival w)
    unfolding read_round
    round-Replayed (err e) w v =
        observed R now chaos env (λ e. e.quit_before_read) _ _ refl
          (steadily R now chaos env _ v (close_with-Steady shutdown w)) (fail-Replayed e w v)
    round-Replayed (ok frame) w v =
        observed R now chaos env (λ e. e.quit_before_read) _ _ refl
          (steadily R now chaos env _ v (close_with-Steady shutdown w))
          (frame-Replayed frame (decode frame) (count_read R w)
            (record { gate = v.gate; seeded = v.seeded; capless = v.capless }))
