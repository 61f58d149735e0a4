-- ===== src/Smsc/Answers/Submits.antt =====
-- internal/smsc/session.go: what a submit_sm queues, through the helpers of its handler.
use go_smsc_simulator.Common.{
  ℕ, ◌≡◌, refl, ◌∙◌, arith, leb, not, ◌&&◌, Bool, true, List, [], ◌∷◌, Option, none, some,
  Option-cases, inl, inr, if_both,
}
use go_smsc_simulator.Smpp.Commands.{submit_sm_resp}
use go_smsc_simulator.Smpp.Pdu.{Message, Pdu}
use go_smsc_simulator.Scenario.Engine.{
  DlrPlan, Decision, Outcome, outcome_success, outcome_error, outcome_timeout, outcome_disconnect,
}
use go_smsc_simulator.Config.Enums.{Profile}
use go_smsc_simulator.Config.Schema.{ScheduledTransition, ScheduledDisconnect}
use go_smsc_simulator.Smsc.CloseReason.{panic, CloseReason, shutdown, scheduled_disconnect}
use go_smsc_simulator.Smsc.Session.{Env, World, close_with, lookup_engine}
use go_smsc_simulator.Smsc.Events.{
  schedule_dlr, apply_transition, next_transition, transitions_loop, cut, next_disconnect, cut_both,
  panic_both, disconnects_loop, apply_due_disconnects, drain_session,
  due_disconnect_before_response, is_disconnect_target,
}
use go_smsc_simulator.Smsc.Submit.{
  is_disconnect, is_after_response, serve_latency, commit, plan_after, settle, conclude,
  decided_submit,
}
use go_smsc_simulator.Smsc.Handle.{refuse}
use go_smsc_simulator.Smsc.Answers.{
  Answers, same_out, Answers-trans, send-Answers, respond-Answers, drain_session-Answers,
}

module _ {S F : Type 0} where
  out-schedule_dlr :
      (id : List ℕ) (msg : Message) (plan : DlrPlan) (sent : Option ℕ) (w : World S F)
      → (schedule_dlr id msg plan sent w).out ≡ w.out
  unfolding schedule_dlr
  out-schedule_dlr id msg plan sent w =
      if_both (λ (z : World S F). z.out ≡ w.out) w.session.can_receive refl refl

  out-plan_after :
      (id : List ℕ) (msg : Message) (plan : Option DlrPlan) (r : World S F × Option ℕ)
      → (plan_after id msg plan r).out ≡ (r.0).out
  out-plan_after id msg none (w, sent) = refl
  out-plan_after id msg (some plan) (w, sent) = out-schedule_dlr id msg plan sent w

  out-disconnects_loop :
      (tick : ℕ) (ds : List ScheduledDisconnect) (w : World S F)
      → (disconnects_loop tick ds w).out ≡ w.out
  unfolding disconnects_loop close_with
  out-disconnects_loop tick [] w = refl
  out-disconnects_loop tick (d ∷ ds) w =
      let rest =
        out-disconnects_loop tick ds (cut d (next_disconnect w))
        ∙ cut_both (λ (z : World S F). z.out ≡ w.out)
            (is_disconnect_target d.scope d.at_tick (next_disconnect w)) (next_disconnect w)
            (next_disconnect w) refl refl refl in
      if_both (λ (z : World S F). z.out ≡ w.out) (leb d.at_tick tick)
        (panic_both (λ (z : World S F). z.out ≡ w.out)
          (is_disconnect_target d.scope d.at_tick (next_disconnect w)) (next_disconnect w) _ refl
          rest)
        refl

  out-apply_transition : (to : Profile) (w : World S F) → (apply_transition to w).out ≡ w.out
  unfolding apply_transition
  out-apply_transition to w = elim (Option-cases (lookup_engine to w.smsc.engines)) [
    | inl e ↦ rw (e, apply_transition) refl
    | inr (x, e) ↦ rw (e, apply_transition) refl
  ]

  pub out-transitions_loop :
      (tick : ℕ) (ts : List ScheduledTransition) (w : World S F)
      → (transitions_loop tick ts w).out ≡ w.out
  unfolding transitions_loop
  out-transitions_loop tick [] w = refl
  out-transitions_loop tick (t ∷ ts) w =
      if_both (λ (z : World S F). z.out ≡ w.out) (leb t.at_tick tick)
        (out-transitions_loop tick ts (next_transition (apply_transition t.to_profile w))
          ∙ out-apply_transition t.to_profile w)
        refl

  pub out-close_with : (reason : CloseReason) (w : World S F) → (close_with reason w).out ≡ w.out
  unfolding close_with
  out-close_with reason w = refl

  out-commit : (tick : ℕ) (msg : Message) (w : World S F) → (commit tick msg w).out ≡ w.out
  unfolding commit
  out-commit tick msg w = refl

  module _ (seq : ℕ) where
    -- What ends with something that queues nothing.
    then_quiet :
        {edges : Bool} {cmd n : ℕ} {w w' : World S F} (w'' : World S F)
        → Answers edges seq cmd n w w'
        → w''.out ≡ w'.out
        → Answers edges seq cmd n w w''
    then_quiet w'' a e = record {
      queued = a.queued;
      behind = e ∙ a.behind;
      few = a.few;
      fitting = a.fitting;
    }

    pub closed :
        {edges : Bool} {cmd n : ℕ} {w w' : World S F} (reason : CloseReason)
        → Answers edges seq cmd n w w'
        → Answers edges seq cmd n w (close_with reason w')
    closed {w' = w'} reason a = then_quiet (close_with reason w') a (out-close_with reason w')

    at_most_one :
        {edges : Bool} {cmd : ℕ} {w w' : World S F}
        → Answers edges seq cmd 0 w w'
        → Answers edges seq cmd 1 w w'
    at_most_one a = record {
      queued = a.queued;
      behind = a.behind;
      few = omega (arith, a.few);
      fitting = a.fitting;
    }

    settle-Answers :
        (env : Env S) (w : World S F) → Answers true seq submit_sm_resp 0 w (settle env w)
    unfolding settle apply_due_disconnects
    settle-Answers env w =
        then_quiet _ (drain_session-Answers true seq submit_sm_resp env w.session.per_bind_clock w)
          (out-disconnects_loop _ _ (drain_session env w.session.per_bind_clock w))

    conclude-Answers :
        (env : Env S) (id : List ℕ) (msg : Message) (d : Decision) (o : Outcome) (w : World S F)
        → Answers true seq submit_sm_resp 1 w (conclude env seq id msg d o w)
    unfolding conclude
    conclude-Answers env id msg d outcome_success w =
        Answers-trans true seq submit_sm_resp
          (then_quiet (plan_after id msg d.dlr _)
            (respond-Answers true seq submit_sm_resp _ d.edge_case d.latency_ms w
              (λ h. absurd (cc h)) refl (inl refl))
            (out-plan_after id msg d.dlr _))
          (settle-Answers env _)
    conclude-Answers env id msg d outcome_error w =
        Answers-trans true seq submit_sm_resp
          (respond-Answers true seq submit_sm_resp _ d.edge_case d.latency_ms w (λ h. absurd (cc h))
            refl (inl refl))
          (settle-Answers env _)
    conclude-Answers env id msg d outcome_timeout w = at_most_one (settle-Answers env w)
    conclude-Answers env id msg d outcome_disconnect w = closed _ (
        if_both (Answers true seq submit_sm_resp 1 w) (is_after_response d.disconnect_when)
          (send-Answers true seq submit_sm_resp _ w refl (inl refl))
          (same_out true seq submit_sm_resp 1 w w refl))

    pub decided_submit-Answers :
        (env : Env S) (tick : ℕ) (msg : Message) (d : Decision) (w : World S F)
        → Answers true seq submit_sm_resp 1 w (decided_submit env seq tick msg d w)
    unfolding decided_submit
    decided_submit-Answers env tick msg d w =
        if_both (Answers true seq submit_sm_resp 1 w)
          (is_disconnect d.outcome && not (serve_latency env d.latency_ms))
          (same_out true seq submit_sm_resp 1 w _ (out-close_with shutdown w))
          (cut_both (Answers true seq submit_sm_resp 1 w)
            (due_disconnect_before_response (commit tick msg w)) (commit tick msg w) _
            (same_out true seq submit_sm_resp 1 w _
              (out-close_with panic (commit tick msg w) ∙ out-commit tick msg w))
            (same_out true seq submit_sm_resp 1 w _
              (out-close_with scheduled_disconnect (commit tick msg w) ∙ out-commit tick msg w))
            (Answers-trans true seq submit_sm_resp
              (same_out true seq submit_sm_resp 0 w (commit tick msg w) (out-commit tick msg w))
              (conclude-Answers env _ msg d d.outcome (commit tick msg w))))

    pub refuse-Answers :
        (edges : Bool) {cmd : ℕ} (reason : CloseReason) (kind id : List ℕ) (q : Pdu) (w : World S F)
        → q.sequence_number ≡ seq
        → q.command_id ≡ cmd
        → Answers edges seq cmd 1 w (refuse reason kind id q w)
    refuse-Answers edges {cmd} reason kind id q w s c = closed reason (
        Answers-trans edges seq cmd (same_out edges seq cmd 0 w _ refl) (
          send-Answers edges seq cmd q
            (record w { session = record w.session { bind_type = kind; system_id = id } }) s
            (inl c)))
