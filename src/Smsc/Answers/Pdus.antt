-- ===== src/Smsc/Answers/Pdus.antt =====
-- The answer of a session to each PDU that a client may send.
use go_smsc_simulator.Common.{
  ℕ, ◌+◌, ◌%◌, ◌^◌, ◌≡◌, refl, sym, ap, subst, ◌∙◌, arith, ◌==◌, ==_iff, not, ◌&&◌, ◌||◌, Bool,
  true, false, List, Option, none, some, Bool-cases, Option-cases, inl, inr, if_both, bytes_eq,
}
use go_smsc_simulator.Rng.{Rand}
use go_smsc_simulator.Smpp.Commands.{
  submit_sm_resp, status_sys_err, bind_transmitter, bind_receiver, bind_transceiver, submit_sm,
  enquire_link, unbind, deliver_sm_resp, response,
}
use go_smsc_simulator.Smpp.Pdu.{Bind, Message, Pdu}
use go_smsc_simulator.Scenario.Engine.{Engine, BindState, reject_bind}
use go_smsc_simulator.Smsc.Session.{Env, World, send, bind_kind}
use go_smsc_simulator.Smsc.Events.{apply_due_transitions, schedule_configured_events}
use go_smsc_simulator.Smsc.Submit.{answer, as_message, is_bound, evaluate_submit, handle_submit}
use go_smsc_simulator.Smsc.Handle.{as_bind, is_open, accept_bind, authenticate, handle_bind, handle}
use go_smsc_simulator.Smsc.Answers.{Answers, same_out, Answers-trans, send-Answers}
use go_smsc_simulator.Smsc.Answers.Submits.{
  out-transitions_loop, out-close_with, closed, decided_submit-Answers, refuse-Answers,
}

module _ (R : Rand) where
  open R use {Source, Float}

  out-accept_bind :
      (env : Env Source) (command : ℕ) (id kind : List ℕ) (w : World Source Float)
      → (accept_bind R env command id kind w).out ≡ w.out
  unfolding accept_bind schedule_configured_events
  out-accept_bind env command id kind w = refl

  authenticate-Answers :
      (edges : Bool) (env : Env Source) (p : Pdu) (b : Bind) (w : World Source Float)
      → Answers edges p.sequence_number (bind_kind p.command_id).1 1 w (authenticate R env p b w)
  unfolding authenticate
  authenticate-Answers edges env p b w =
      if_both (Answers edges p.sequence_number (bind_kind p.command_id).1 1 w)
        (reject_bind w.smsc.scenario) (refuse-Answers p.sequence_number edges _ _ _ _ w refl refl)
        (if_both (Answers edges p.sequence_number (bind_kind p.command_id).1 1 w)
          (bytes_eq b.system_id w.smsc.cfg.bind_credentials.system_id
            && bytes_eq b.password w.smsc.cfg.bind_credentials.password)
          (Answers-trans edges p.sequence_number _
            (same_out edges p.sequence_number _ 0 w
              (accept_bind R env p.command_id b.system_id (bind_kind p.command_id).0 w)
              (out-accept_bind env p.command_id b.system_id (bind_kind p.command_id).0 w))
            (send-Answers edges p.sequence_number _ _ _ refl (inl refl)))
          (refuse-Answers p.sequence_number edges _ _ _ _ w refl refl))

  handle_bind-Answers :
      (edges : Bool) (env : Env Source) (p : Pdu) (w : World Source Float)
      → Answers edges p.sequence_number (bind_kind p.command_id).1 1 w (handle_bind R env p w)
  unfolding handle_bind
  handle_bind-Answers edges env p w =
      if_both (Answers edges p.sequence_number (bind_kind p.command_id).1 1 w)
        (not (is_open w.session.state)) (send-Answers edges p.sequence_number _ _ w refl (inl refl))
        (elim (as_bind p.body)
          as (λ o. Answers edges p.sequence_number (bind_kind p.command_id).1 1 w (elim o [
            | none ↦
                send (answer (bind_kind p.command_id).1 status_sys_err p.sequence_number none) w
            | some b ↦ authenticate R env p b w
          ])) [
            | none ↦ send-Answers edges p.sequence_number _ _ w refl (inl refl)
            | some b ↦ authenticate-Answers edges env p b w
          ])

  evaluate_submit-Answers :
      (env : Env Source) (seq tick : ℕ) (msg : Message) (e : Option (Engine Float))
      (st : Option (BindState Source)) (w : World Source Float)
      → Answers true seq submit_sm_resp 1 w (evaluate_submit R env seq tick msg e st w)
  unfolding evaluate_submit
  evaluate_submit-Answers env seq tick msg (some e) (some st) w =
      Answers-trans true seq submit_sm_resp
        (same_out true seq submit_sm_resp 0 w
          (record w { session = record w.session { scenario_state = _ } }) refl)
        (decided_submit-Answers seq env tick msg _ _)
  evaluate_submit-Answers env seq tick msg none st w =
      same_out true seq submit_sm_resp 1 w _ (out-close_with _ w)
  evaluate_submit-Answers env seq tick msg (some e) none w =
      same_out true seq submit_sm_resp 1 w _ (out-close_with _ w)

  handle_submit-Answers :
      (env : Env Source) (p : Pdu) (w : World Source Float)
      → Answers true p.sequence_number submit_sm_resp 1 w (handle_submit R env p w)
  unfolding handle_submit apply_due_transitions
  handle_submit-Answers env p w =
      elim (Bool-cases (not (is_bound w.session.state) || not w.session.can_submit)) [
        | inl refused ↦ rw refused (send-Answers true p.sequence_number _ _ w refl (inl refl))
        | inr bound ↦ rw bound (elim (Option-cases (as_message p.body)) [
          | inl other ↦ rw other (send-Answers true p.sequence_number _ _ w refl (inl refl))
          | inr (msg, e) ↦ rw e (
              Answers-trans true p.sequence_number submit_sm_resp
                (same_out true p.sequence_number submit_sm_resp 0 w _
                  (out-transitions_loop ((w.session.per_bind_clock + 1) % 2 ^ 64) _ w))
                (evaluate_submit-Answers env p.sequence_number _ msg _ _ _))
        ])
      ]

-- The command that a handler answers with is the response of the request's.
response_at : (c k r : ℕ) → (c == k) ≡ true → response k ≡ r → r ≡ response c
response_at c k r e h = sym h ∙ ap response (sym ((==_iff c k).0 e))

bind_response :
    (c : ℕ)
    → (c == bind_transmitter || c == bind_receiver || c == bind_transceiver) ≡ true
    → (bind_kind c).1 ≡ response c
unfolding bind_kind response
bind_response c h = elim (Bool-cases (c == bind_transmitter)) [
  | inl t ↦ rw t (response_at c bind_transmitter _ t refl)
  | inr t ↦ elim (Bool-cases (c == bind_receiver)) [
    | inl r ↦ rw (t, r) (response_at c bind_receiver _ r refl)
    | inr r ↦ rw (t, r) (response_at c bind_transceiver _ (ground arith) refl)
  ]
]

module _ (R : Rand) where
  open R use {Source, Float}

  -- Whatever PDU a session handles, in whatever state and under whatever scenario: what was queued
  -- stays, and at most one response is queued behind it, at once or held back, which is a frame
  -- of a PDU with the request's sequence number and the response's command, or a generic_nack. It is
  -- malformed on purpose for a submit at most.
  pub handle-Answers :
      (env : Env Source) (p : Pdu) (w : World Source Float)
      → Answers
          (p.command_id == submit_sm)
          p.sequence_number
          (response p.command_id)
          1
          w
          (handle R env p w)
  unfolding handle response
  handle-Answers env p w =
      let c = p.command_id in
      let seq = p.sequence_number in
      elim (Bool-cases (c == bind_transmitter || c == bind_receiver || c == bind_transceiver)) [
        | inl b ↦ rw b (
            subst (λ k. Answers (c == submit_sm) seq k 1 w (handle_bind R env p w))
              (bind_response c b) (handle_bind-Answers R (c == submit_sm) env p w))
        | inr nb ↦ rw nb (elim (Bool-cases (c == submit_sm)) [
          | inl s ↦ rw s (
              subst (λ k. Answers true seq k 1 w (handle_submit R env p w))
                (response_at c submit_sm submit_sm_resp s refl) (handle_submit-Answers R env p w))
          | inr ns ↦ rw ns (elim (Bool-cases (c == enquire_link)) [
            | inl e ↦
                rw e (send-Answers false seq _ _ w refl (inl (response_at c enquire_link _ e refl)))
            | inr ne ↦ rw ne (elim (Bool-cases (c == unbind)) [
              | inl u ↦ rw u (
                  closed seq _
                    (send-Answers false seq _ _ w refl (inl (response_at c unbind _ u refl))))
              | inr nu ↦ rw nu (
                  if_both (Answers false seq _ 1 w) (c == deliver_sm_resp)
                    (same_out false seq _ 1 w w refl)
                    (send-Answers false seq _ _ w refl (inr refl)))
            ])
          ])
        ])
      ]
