-- ===== src/Smsc/Corpus/Pdus.antt =====
-- The PDUs that a session handles, and what they do to the clocks and to the journal.
use go_smsc_simulator.Common.{
  ℕ, refl, subst, if_both, not, ◌&&◌, ◌||◌, List, Option, none, some, Bool-cases, Option-cases, inl,
  inr, bytes_eq,
}
use go_smsc_simulator.Rng.{Rand}
use go_smsc_simulator.Smpp.Pdu.{Bind, Message, Pdu}
use go_smsc_simulator.Scenario.Engine.{Engine, BindState, reject_bind}
use go_smsc_simulator.Smsc.Session.{Env, World, send}
use go_smsc_simulator.Smsc.Events.{apply_due_transitions, schedule_configured_events}
use go_smsc_simulator.Smsc.Submit.{as_message, is_bound, evaluate_submit, handle_submit}
use go_smsc_simulator.Smsc.Handle.{as_bind, is_open, accept_bind, authenticate, handle_bind, handle}
use go_smsc_simulator.Smsc.Quiet.{send-Quiet}
use go_smsc_simulator.Smsc.Corpus.{
  next_tick, Kept, Moves, stays, Kept-refl, Kept-trans, Kept-of_Quiet, close_with-Kept,
  decided_submit-Moves, Switched, Moves-Switched, transitions_loop-Switched, refuse-Kept,
}

module _ (R : Rand) where
  open R use {Source, Float}

  accept_bind-Kept :
      (env : Env Source) (command : ℕ) (id kind : List ℕ) (w : World Source Float)
      → Kept w (accept_bind R env command id kind w)
  unfolding accept_bind schedule_configured_events
  accept_bind-Kept env command id kind w = record { clock = refl; logical = refl; journal = refl }

  authenticate-Kept :
      (env : Env Source) (p : Pdu) (b : Bind) (w : World Source Float)
      → Kept w (authenticate R env p b w)
  unfolding authenticate
  authenticate-Kept env p b w = elim (Bool-cases (reject_bind w.smsc.scenario)) [
    | inl rejects ↦ rw rejects (refuse-Kept _ _ _ _ w)
    | inr accepts ↦
        rw accepts
          (elim (Bool-cases (
            bytes_eq b.system_id w.smsc.cfg.bind_credentials.system_id
            && bytes_eq b.password w.smsc.cfg.bind_credentials.password)) [
              | inl right ↦ rw right (
                  Kept-trans (accept_bind-Kept env p.command_id _ _ w)
                    (Kept-of_Quiet (send-Quiet _ _)))
              | inr wrong ↦ rw wrong (refuse-Kept _ _ _ _ w)
            ])
  ]

  handle_bind-Kept :
      (env : Env Source) (p : Pdu) (w : World Source Float) → Kept w (handle_bind R env p w)
  unfolding handle_bind
  handle_bind-Kept env p w = elim (Bool-cases (is_open w.session.state)) [
    | inl fresh ↦ rw fresh (elim (Option-cases (as_bind p.body)) [
      | inl other ↦ rw other (Kept-of_Quiet (send-Quiet _ w))
      | inr (b, e) ↦ rw e (authenticate-Kept env p b w)
    ])
    | inr late ↦ rw late (Kept-of_Quiet (send-Quiet _ w))
  ]

  with_scenario-Kept :
      (st : Option (BindState Source)) (w : World Source Float)
      → Switched w (record w { session = record w.session { scenario_state = st } })
  with_scenario-Kept st w = record {
    kept = record { clock = refl; logical = refl; journal = refl };
    id = refl;
  }

  evaluate_submit-Moves :
      (env : Env Source) (seq : ℕ) (msg : Message) (e : Option (Engine Float))
      (st : Option (BindState Source)) (w : World Source Float)
      → Moves w (evaluate_submit R env seq (next_tick w.session.per_bind_clock) msg e st w)
  unfolding evaluate_submit
  evaluate_submit-Moves env seq msg (some e) (some st) w =
      Moves-Switched (with_scenario-Kept _ w) (decided_submit-Moves env seq msg _ _)
  evaluate_submit-Moves env seq msg none st w = stays (close_with-Kept _ w)
  evaluate_submit-Moves env seq msg (some e) none w = stays (close_with-Kept _ w)

  transitions-Moves :
      (env : Env Source) (seq : ℕ) (msg : Message) (w w' : World Source Float)
      → Switched w w'
      → Moves w (
          evaluate_submit R env seq
            (next_tick w.session.per_bind_clock)
            msg
            w'.session.current_engine
            w'.session.scenario_state
            w')
  transitions-Moves env seq msg w w' s =
      subst
        (λ c. Moves w (
          evaluate_submit R env seq (next_tick c) msg w'.session.current_engine
            w'.session.scenario_state w'))
        s.kept.clock
        (Moves-Switched s (
          evaluate_submit-Moves env seq msg w'.session.current_engine w'.session.scenario_state w'))

  handle_submit-Moves :
      (env : Env Source) (p : Pdu) (w : World Source Float) → Moves w (handle_submit R env p w)
  unfolding handle_submit apply_due_transitions
  handle_submit-Moves env p w =
      elim (Bool-cases (not (is_bound w.session.state) || not w.session.can_submit)) [
        | inl refused ↦ rw refused (stays (Kept-of_Quiet (send-Quiet _ w)))
        | inr bound ↦ rw bound (elim (Option-cases (as_message p.body)) [
          | inl other ↦ rw other (stays (Kept-of_Quiet (send-Quiet _ w)))
          | inr (msg, e) ↦ rw e (
              transitions-Moves env p.sequence_number msg w _
                (transitions_loop-Switched (next_tick w.session.per_bind_clock) _ w))
        ])
      ]

  sent-Moves : (p : Pdu) (w : World Source Float) → Moves w (send p w)
  sent-Moves p w = stays (Kept-of_Quiet (send-Quiet p w))

  -- Whatever PDU a session handles, in whatever state: the bind's clock, the virtual SMSC's clock
  -- and the journal either all stay as they are, or a single submit is committed to all three, in
  -- the journal with the message id and the tick that are next.
  pub handle-Moves :
      (env : Env Source) (p : Pdu) (w : World Source Float) → Moves w (handle R env p w)
  unfolding handle
  handle-Moves env p w = if_both (Moves w) _ (stays (handle_bind-Kept env p w)) (
      if_both (Moves w) _ (handle_submit-Moves env p w) (
        if_both (Moves w) _ (sent-Moves _ w) (
          if_both (Moves w) _
            (stays (Kept-trans (Kept-of_Quiet (send-Quiet _ w)) (close_with-Kept _ _)))
            (if_both (Moves w) _ (stays (Kept-refl w)) (sent-Moves _ w)))))
