-- ===== src/Smsc/Corpus.antt =====
-- What an operation of a session does to the clocks and to the journal.
pub mod Pdus
use go_smsc_simulator.Common.{
  ℕ, ◌+◌, ◌%◌, ◌^◌, ◌==◌, ◌≡◌, refl, ap, ◌∙◌, subst, if_both, arith, leb, Bool, true, false, not,
  ◌&&◌, ◌||◌, List, [], ◌∷◌, drop, if◌then◌else◌, Option, none, some, Bool-cases, Option-cases, inl,
  inr, bytes_eq,
}
use go_smsc_simulator.Rng.{Rand}
use go_smsc_simulator.Smpp.Pdu.{Bind, Message, Pdu, Body}
use go_smsc_simulator.Config.Schema.{ScheduledDisconnect, ScheduledTransition}
use go_smsc_simulator.Scenario.Engine.{
  Outcome, outcome_success, outcome_error, outcome_timeout, outcome_disconnect, DlrPlan, Decision,
  Engine, BindState, reject_bind,
}
use go_smsc_simulator.Scenario.Evaluate.{evaluate}
use go_smsc_simulator.Recorder.{Recorder, append}
use go_smsc_simulator.Smsc.CloseReason.{panic, scheduled_disconnect, CloseReason}
use go_smsc_simulator.Smsc.Session.{
  Env, Session, World, lookup_engine, close_with, send, respond, message_id_of, encode_pdu,
}
use go_smsc_simulator.Smsc.Events.{
  cut, next_disconnect, cut_both, panic_both, is_disconnect_target, disconnects_loop,
  apply_due_disconnects, apply_transition, next_transition, transitions_loop, apply_due_transitions,
  schedule_configured_events, drain_session, due_disconnect_before_response,
}
use go_smsc_simulator.Smsc.Submit.{
  as_message, is_disconnect, serve_latency, is_after_response, is_bound, record_of, commit,
  plan_after, settle, conclude, decided_submit, evaluate_submit, handle_submit,
}
use go_smsc_simulator.Smsc.Handle.{
  as_bind, is_open, refuse, accept_bind, authenticate, handle_bind, handle,
}
use go_smsc_simulator.Smsc.Quiet.{
  core, Quiet, send-Quiet, respond-Quiet, schedule_dlr-Quiet, drain_session-Quiet, Quiet-refl,
  Quiet-trans,
}

abbrev pub next_tick : ℕ → ℕ
next_tick n = (n + 1) % 2 ^ 64

module _ {S F : Type 0} where
  -- The clocks and the journal are as they were.
  pub record Kept (w w' : World S F) : Type 0 where
    pub clock : w'.session.per_bind_clock ≡ w.session.per_bind_clock
    pub logical : w'.smsc.logical_clock ≡ w.smsc.logical_clock
    pub journal : w'.smsc.recorder ≡ w.smsc.recorder

  -- One submit was committed: both clocks advanced, and it is in the journal under its id and tick.
  pub record Committed (w w' : World S F) : Type 0 where
    pub msg : Message
    pub clock : w'.session.per_bind_clock ≡ next_tick w.session.per_bind_clock
    pub logical : w'.smsc.logical_clock ≡ next_tick w.smsc.logical_clock
    pub journal :
        w'.smsc.recorder
        ≡ append w.smsc.recorder (
            record_of
              (message_id_of w.session.id (next_tick w.session.per_bind_clock))
              msg
              (next_tick w.session.per_bind_clock))

  pub data Moves (w w' : World S F) : Type 0 where
    stays : Kept w w' → Moves w w'
    commits : Committed w w' → Moves w w'

  pub Kept-refl : (w : World S F) → Kept w w
  Kept-refl w = record { clock = refl; logical = refl; journal = refl }

  pub Kept-trans : {u v w : World S F} → Kept u v → Kept v w → Kept u w
  Kept-trans k l = record {
    clock = l.clock ∙ k.clock;
    logical = l.logical ∙ k.logical;
    journal = l.journal ∙ k.journal;
  }

  pub Kept-of_Quiet : {w w' : World S F} → Quiet w w' → Kept w w'
  Kept-of_Quiet q = record {
    clock = ap (λ s. s.per_bind_clock) q.session;
    logical = ap (λ v. v.logical_clock) q.smsc;
    journal = ap (λ v. v.recorder) q.smsc;
  }

  Committed-Kept : {u v w : World S F} → Committed u v → Kept v w → Committed u w
  Committed-Kept c k = record {
    msg = c.msg;
    clock = k.clock ∙ c.clock;
    logical = k.logical ∙ c.logical;
    journal = k.journal ∙ c.journal;
  }

  pub close_with-Kept : (r : CloseReason) (w : World S F) → Kept w (close_with r w)
  unfolding close_with
  close_with-Kept r w = record { clock = refl; logical = refl; journal = refl }

  next_disconnect-Kept : (w : World S F) → Kept w (next_disconnect w)
  next_disconnect-Kept w = record { clock = refl; logical = refl; journal = refl }

  shut-Kept : (r : CloseReason) (w : World S F) → Kept w (close_with r (next_disconnect w))
  shut-Kept r w = Kept-trans (next_disconnect-Kept w) (close_with-Kept r _)

  cut-Kept : (d : ScheduledDisconnect) (w : World S F) → Kept w (cut d (next_disconnect w))
  cut-Kept d w =
      let next = next_disconnect w in
      cut_both (Kept w) (is_disconnect_target d.scope d.at_tick next) next next (shut-Kept panic w)
        (shut-Kept scheduled_disconnect w) (next_disconnect-Kept w)

  disconnects_loop-Kept :
      (tick : ℕ) (ds : List ScheduledDisconnect) (w : World S F)
      → Kept w (disconnects_loop tick ds w)
  unfolding disconnects_loop
  disconnects_loop-Kept tick [] w = Kept-refl w
  disconnects_loop-Kept tick (d ∷ ds) w =
      let k =
        Kept-trans (cut-Kept d w) (disconnects_loop-Kept tick ds (cut d (next_disconnect w))) in
      elim (Bool-cases (leb d.at_tick tick)) [
        | inl due ↦ rw due (panic_both (Kept w) _ (next_disconnect w) _ (shut-Kept panic w) k)
        | inr later ↦ rw later (Kept-refl w)
      ]

  settle-Kept : (env : Env S) (w : World S F) → Kept w (settle env w)
  unfolding settle apply_due_disconnects
  settle-Kept env w =
      Kept-trans (Kept-of_Quiet (drain_session-Quiet env _ w)) (disconnects_loop-Kept _ _ _)

  pub plan_after-Quiet :
      (id : List ℕ) (msg : Message) (plan : Option DlrPlan) (w : World S F) (sent : Option ℕ)
      → Quiet w (plan_after id msg plan (w, sent))
  plan_after-Quiet id msg none w sent = Quiet-refl w
  plan_after-Quiet id msg (some plan) w sent = schedule_dlr-Quiet id msg plan sent w

  conclude-Kept :
      (env : Env S) (seq : ℕ) (id : List ℕ) (msg : Message) (d : Decision) (o : Outcome)
      (w : World S F)
      → Kept w (conclude env seq id msg d o w)
  unfolding conclude
  conclude-Kept env seq id msg d outcome_success w =
      Kept-trans
        (Kept-of_Quiet
          (Quiet-trans (respond-Quiet _ d.latency_ms w) (plan_after-Quiet id msg d.dlr _ _)))
        (settle-Kept env _)
  conclude-Kept env seq id msg d outcome_error w =
      Kept-trans (Kept-of_Quiet (respond-Quiet _ d.latency_ms w)) (settle-Kept env _)
  conclude-Kept env seq id msg d outcome_timeout w = settle-Kept env w
  conclude-Kept env seq id msg d outcome_disconnect w =
      elim (Bool-cases (is_after_response d.disconnect_when)) [
        | inl after ↦ rw after (Kept-trans (Kept-of_Quiet (send-Quiet _ w)) (close_with-Kept _ _))
        | inr before ↦ rw before (close_with-Kept _ w)
      ]

  commit-Committed :
      (msg : Message) (w : World S F)
      → Committed w (commit (next_tick w.session.per_bind_clock) msg w)
  unfolding commit
  commit-Committed msg w = record { msg = msg; clock = refl; logical = refl; journal = refl }

  pub decided_submit-Moves :
      (env : Env S) (seq : ℕ) (msg : Message) (d : Decision) (w : World S F)
      → Moves w (decided_submit env seq (next_tick w.session.per_bind_clock) msg d w)
  unfolding decided_submit
  decided_submit-Moves env seq msg d w =
      let c = commit-Committed msg w in
      elim (Bool-cases (is_disconnect d.outcome && not (serve_latency env d.latency_ms))) [
        | inl left ↦ rw left (stays (close_with-Kept _ w))
        | inr served ↦ rw served (
            let w' = commit (next_tick w.session.per_bind_clock) msg w in
            cut_both (Moves w) (due_disconnect_before_response w') w' _
              (commits (Committed-Kept c (close_with-Kept _ _)))
              (commits (Committed-Kept c (close_with-Kept _ _)))
              (commits (Committed-Kept c (conclude-Kept env seq _ msg d _ _))))
      ]

  -- A transition changes the engine and the view of it, and nothing else.
  pub record Switched (w w' : World S F) : Type 0 where
    pub kept : Kept w w'
    pub id : w'.session.id ≡ w.session.id

  pub Moves-Switched : {u v w : World S F} → Switched u v → Moves v w → Moves u w
  Moves-Switched s (stays k) = stays (Kept-trans s.kept k)
  Moves-Switched s (commits c) = commits (record {
    msg = c.msg;
    clock = c.clock ∙ ap next_tick s.kept.clock;
    logical = c.logical ∙ ap next_tick s.kept.logical;
    journal = rw (← s.kept.journal, ← s.id, ← s.kept.clock) c.journal;
  })

  next_transition-Switched :
      (t : ScheduledTransition) (w : World S F)
      → Switched w (next_transition (apply_transition t.to_profile w))
  unfolding apply_transition
  next_transition-Switched t w = record {
    kept = record { clock = ground arith; logical = ground arith; journal = ground arith };
    id = ground arith;
  }

  pub transitions_loop-Switched :
      (tick : ℕ) (ts : List ScheduledTransition) (w : World S F)
      → Switched w (transitions_loop tick ts w)
  unfolding transitions_loop
  transitions_loop-Switched tick [] w = record { kept = Kept-refl w; id = refl }
  transitions_loop-Switched tick (t ∷ ts) w =
      let one = next_transition-Switched t w in
      let more =
        transitions_loop-Switched tick ts (next_transition (apply_transition t.to_profile w)) in
      elim (Bool-cases (leb t.at_tick tick)) [
        | inl due ↦ rw due (record { kept = Kept-trans one.kept more.kept; id = more.id ∙ one.id })
        | inr later ↦ rw later (record { kept = Kept-refl w; id = refl })
      ]

  pub refuse-Kept :
      (r : CloseReason) (kind id : List ℕ) (p : Pdu) (w : World S F) → Kept w (refuse r kind id p w)
  refuse-Kept r kind id p w =
      Kept-trans
        (Kept-trans (record { clock = refl; logical = refl; journal = refl })
          (Kept-of_Quiet (send-Quiet p _)))
        (close_with-Kept r _)
