-- ===== src/Smsc/Steady.antt =====
-- What an operation of a session leaves as it is: its place in the registry, and what its decisions
-- start from.
use go_smsc_simulator.Common.{
  ℕ, ◌≡◌, refl, ap, ◌∙◌, arith, false, not, ◌&&◌, List, [], ◌∷◌, if_both,
}
use go_smsc_simulator.Smpp.Commands.{is_response}
use go_smsc_simulator.Smpp.Pdu.{Message, Pdu}
use go_smsc_simulator.Smpp.Reader.{CodecError, unknown_command}
use go_smsc_simulator.Scenario.Engine.{
  Decision, Outcome, outcome_success, outcome_error, outcome_timeout, outcome_disconnect,
}
use go_smsc_simulator.Smsc.Session.{Env, World, close_with}
use go_smsc_simulator.Smsc.Events.{
  due_disconnect_before_response, cut, next_disconnect, cut_both, panic_both, is_disconnect_target,
  disconnects_loop, apply_due_disconnects, apply_transition, next_transition, transitions_loop,
}
use go_smsc_simulator.Smsc.Submit.{
  settle, conclude, decided_submit, commit, is_disconnect, serve_latency,
}
use go_smsc_simulator.Smsc.Handle.{is_open, refuse}
use go_smsc_simulator.Smsc.ReadLoop.{reject_malformed_id}
use go_smsc_simulator.Smsc.CloseReason.{panic, scheduled_disconnect, CloseReason, shutdown}
use go_smsc_simulator.Config.Schema.{ScheduledDisconnect, ScheduledTransition}
use go_smsc_simulator.Smsc.Quiet.{
  Quiet, Quiet-trans, send-Quiet, respond-Quiet, drain_session-Quiet,
}
use go_smsc_simulator.Smsc.Corpus.{plan_after-Quiet}

module _ {S F : Type 0} where
  -- The session is as much in the registry as it was, and does not open again.
  pub record Same (w w' : World S F) : Type 0 where
    pub id : w'.session.id ≡ w.session.id
    pub binds : w'.smsc.binds ≡ w.smsc.binds
    pub seq : w'.smsc.bind_seq ≡ w.smsc.bind_seq
    pub shut : (is_open w'.session.state && not (is_open w.session.state)) ≡ false

  pub Same-refl : (w : World S F) → Same w w
  Same-refl w = record { id = refl; binds = refl; seq = refl; shut = ground arith }

  pub Same-trans : {u v w : World S F} → Same u v → Same v w → Same u w
  Same-trans k l = record {
    id = l.id ∙ k.id;
    binds = l.binds ∙ k.binds;
    seq = l.seq ∙ k.seq;
    shut = let a = k.shut in let b = l.shut in ground (arith, a, b);
  }

  -- The same, and what the session's decisions start from stays: its bind's state, the configuration
  -- and the initial engine.
  pub record Steady (w w' : World S F) : Type 0 where
    pub state : w'.session.scenario_state ≡ w.session.scenario_state
    pub cfg : w'.smsc.cfg ≡ w.smsc.cfg
    pub initial : w'.smsc.scenario ≡ w.smsc.scenario
    pub same : Same w w'

  pub Steady-refl : (w : World S F) → Steady w w
  Steady-refl w = record { state = refl; cfg = refl; initial = refl; same = Same-refl w }

  pub Steady-trans : {u v w : World S F} → Steady u v → Steady v w → Steady u w
  Steady-trans k l = record {
    state = l.state ∙ k.state;
    cfg = l.cfg ∙ k.cfg;
    initial = l.initial ∙ k.initial;
    same = Same-trans k.same l.same;
  }

  pub Quiet-Steady : {w w' : World S F} → Quiet w w' → Steady w w'
  Quiet-Steady q = record {
    state = ap (λ s. s.scenario_state) q.session;
    cfg = ap (λ v. v.cfg) q.smsc;
    initial = ap (λ v. v.scenario) q.smsc;
    same = record {
      id = ap (λ s. s.id) q.session;
      binds = ap (λ v. v.binds) q.smsc;
      seq = ap (λ v. v.bind_seq) q.smsc;
      shut = let e = ap (λ s. s.state) q.session in ground (arith, e);
    };
  }

  pub close_with-Steady : (r : CloseReason) (w : World S F) → Steady w (close_with r w)
  unfolding close_with
  close_with-Steady r w = record {
    state = refl;
    cfg = refl;
    initial = refl;
    same = record { id = refl; binds = refl; seq = refl; shut = ground arith };
  }

  next_disconnect-Steady : (w : World S F) → Steady w (next_disconnect w)
  next_disconnect-Steady w = record {
    state = refl;
    cfg = refl;
    initial = refl;
    same = record { id = refl; binds = refl; seq = refl; shut = ground arith };
  }

  cut-Steady : (d : ScheduledDisconnect) (w : World S F) → Steady w (cut d (next_disconnect w))
  cut-Steady d w =
      let next = next_disconnect w in
      let shut : (r : CloseReason) → Steady w (close_with r next) =
        λ r. Steady-trans (next_disconnect-Steady w) (close_with-Steady r next) in
      cut_both (Steady w) (is_disconnect_target d.scope d.at_tick next) next next (shut panic)
        (shut scheduled_disconnect) (next_disconnect-Steady w)

  disconnects-Steady :
      (tick : ℕ) (ds : List ScheduledDisconnect) (w : World S F)
      → Steady w (disconnects_loop tick ds w)
  unfolding disconnects_loop
  disconnects-Steady tick [] w = Steady-refl w
  disconnects-Steady tick (d ∷ ds) w =
      if_both (Steady w) _
        (panic_both (Steady w) _ (next_disconnect w) _
          (Steady-trans (next_disconnect-Steady w) (close_with-Steady panic _))
          (Steady-trans (cut-Steady d w) (disconnects-Steady tick ds _)))
        (Steady-refl w)

  settle-Steady : (env : Env S) (w : World S F) → Steady w (settle env w)
  unfolding settle apply_due_disconnects
  settle-Steady env w =
      Steady-trans (Quiet-Steady (drain_session-Quiet env _ w)) (disconnects-Steady _ _ _)

  conclude-Steady :
      (env : Env S) (seq : ℕ) (id : List ℕ) (msg : Message) (d : Decision) (o : Outcome)
      (w : World S F)
      → Steady w (conclude env seq id msg d o w)
  unfolding conclude
  conclude-Steady env seq id msg d outcome_success w =
      Steady-trans
        (Quiet-Steady
          (Quiet-trans (respond-Quiet _ d.latency_ms w) (plan_after-Quiet id msg d.dlr _ _)))
        (settle-Steady env _)
  conclude-Steady env seq id msg d outcome_error w =
      Steady-trans (Quiet-Steady (respond-Quiet _ d.latency_ms w)) (settle-Steady env _)
  conclude-Steady env seq id msg d outcome_timeout w = settle-Steady env w
  conclude-Steady env seq id msg d outcome_disconnect w =
      Steady-trans (if_both (Steady w) _ (Quiet-Steady (send-Quiet _ w)) (Steady-refl w))
        (close_with-Steady _ _)

  commit-Steady : (tick : ℕ) (msg : Message) (w : World S F) → Steady w (commit tick msg w)
  unfolding commit
  commit-Steady tick msg w = record {
    state = refl;
    cfg = refl;
    initial = refl;
    same = record { id = refl; binds = refl; seq = refl; shut = ground arith };
  }

  pub decided-Steady :
      (env : Env S) (seq tick : ℕ) (msg : Message) (d : Decision) (w : World S F)
      → Steady w (decided_submit env seq tick msg d w)
  unfolding decided_submit
  decided-Steady env seq tick msg d w =
      let c = commit-Steady tick msg w in
      if_both (Steady w) (is_disconnect d.outcome && not (serve_latency env d.latency_ms))
        (close_with-Steady shutdown w)
        (cut_both (Steady w) (due_disconnect_before_response (commit tick msg w))
          (commit tick msg w) _ (Steady-trans c (close_with-Steady _ _))
          (Steady-trans c (close_with-Steady _ _))
          (Steady-trans c (conclude-Steady env seq _ msg d _ _)))

  next-Steady :
      (t : ScheduledTransition) (w : World S F)
      → Steady w (next_transition (apply_transition t.to_profile w))
  unfolding apply_transition
  next-Steady t w = record {
    state = ground arith;
    cfg = ground arith;
    initial = ground arith;
    same = record {
      id = ground arith;
      binds = ground arith;
      seq = ground arith;
      shut = ground arith;
    };
  }

  pub transitions-Steady :
      (tick : ℕ) (ts : List ScheduledTransition) (w : World S F)
      → Steady w (transitions_loop tick ts w)
  unfolding transitions_loop
  transitions-Steady tick [] w = Steady-refl w
  transitions-Steady tick (t ∷ ts) w =
      if_both (Steady w) _ (Steady-trans (next-Steady t w) (transitions-Steady tick ts _))
        (Steady-refl w)

  pub refuse-Steady :
      (r : CloseReason) (kind id : List ℕ) (p : Pdu) (w : World S F)
      → Steady w (refuse r kind id p w)
  refuse-Steady r kind id p w =
      Steady-trans
        (Steady-trans
          (record {
            state = refl;
            cfg = refl;
            initial = refl;
            same = record { id = refl; binds = refl; seq = refl; shut = ground arith };
          })
          (Quiet-Steady (send-Quiet p _)))
        (close_with-Steady r _)

  pub malformed-Steady :
      (id seq : ℕ) (e : CodecError) (w : World S F) → Steady w (reject_malformed_id id seq e w)
  unfolding reject_malformed_id
  malformed-Steady id seq unknown_command w = Quiet-Steady (send-Quiet _ w)
  malformed-Steady id seq e w =
      if_both (Steady w) (is_response id) (Steady-refl w) (Quiet-Steady (send-Quiet _ w))
