-- ===== src/Smsc/Answers.antt =====
-- internal/smsc/session.go: what a session queues as the answer to a PDU, through the helpers that
-- its handlers share.
pub mod Submits
pub mod Pdus
use go_smsc_simulator.Common.{
  ℕ, ◌+◌, ◌≤◌, ◌≡◌, refl, sym, ap, subst, ◌∙◌, arith, leb, ◌==◌, Bool, true, false, List, [], ◌∷◌,
  ◌++◌, append-nil, append_assoc, All, All-append, Option, none, some, Bool-cases, Option-cases,
  inl, inr, ◌⊎◌, if◌then◌else◌, if_both,
}
use go_smsc_simulator.Smpp.Commands.{generic_nack}
use go_smsc_simulator.Smpp.Encode.{EdgeCaseKind}
use go_smsc_simulator.Smpp.Pdu.{Pdu, Message}
use go_smsc_simulator.Scenario.Engine.{DlrPlan}
use go_smsc_simulator.Schedule.{Event, Runner, drain_due}
use go_smsc_simulator.Config.Schema.{ScheduledTransition, ScheduledDisconnect}
use go_smsc_simulator.Smsc.CloseReason.{CloseReason}
use go_smsc_simulator.Smsc.Session.{
  Payload, dlr_event, mo_event, Kind, kind_resp, kind_dlr, kind_mo, Release, at_once, after_latency,
  latency_duration, Output, Env, World, encode_pdu, close_with, queue, send_kind, send, respond,
  lookup_engine,
}
use go_smsc_simulator.Smsc.Events.{
  is_closed, schedule_dlr, emit_after, emit_dlr, emit_mo, dispatch, dispatch_all, with_sched,
  drain_session, apply_transition, next_transition, transitions_loop, cut, next_disconnect,
  disconnects_loop, apply_due_disconnects,
}

abbrev pub one_response : Kind → ℕ
one_response kind_resp = 1
one_response kind_dlr = 0
one_response kind_mo = 0

abbrev pub responses : List Output → ℕ
responses [] = 0
responses (o ∷ os) = one_response o.kind + responses os

responses-append : (xs ys : List Output) → responses (xs ++ ys) ≡ responses xs + responses ys
responses-append [] ys = omega arith
responses-append (x ∷ xs) ys = omega (arith, responses-append xs ys)

module _ (edges : Bool) (seq cmd : ℕ) where
  -- The octets are a frame, which may be malformed on purpose only with `edges`, of a PDU with the
  -- request's sequence number and the response's command, or a generic_nack.
  abbrev pub Reply : List ℕ → Type 0
  Reply b =
      (q : Pdu) × (edge : Option EdgeCaseKind) × (encode_pdu q edge ≡ some b)
      × (edges ≡ false → edge ≡ none)
      × (q.sequence_number ≡ seq)
      × ((q.command_id ≡ cmd) ⊎ (q.command_id ≡ generic_nack))

  abbrev pub Fits : Kind → List ℕ → Type 0
  Fits kind_resp b = Reply b
  Fits kind_dlr b = Unit
  Fits kind_mo b = Unit

  -- What was queued stays, and what follows has at most `n` responses, each of them a reply.
  pub record Answers {S F : Type 0} (n : ℕ) (w w' : World S F) : Type 0 where
    pub queued : List Output
    pub behind : w'.out ≡ w.out ++ queued
    pub few : responses queued ≤ n
    pub fitting : All (λ (o : Output). Fits o.kind o.bytes) queued

  module _ {S F : Type 0} where
    pub same_out : (n : ℕ) (w w' : World S F) → w'.out ≡ w.out → Answers n w w'
    same_out n w w' e = record {
      queued = [];
      behind = e ∙ sym (append-nil w.out);
      few = omega arith;
      fitting = tt;
    }

    pub Answers-trans :
        {n m : ℕ} {u v w : World S F} → Answers n u v → Answers m v w → Answers (n + m) u w
    Answers-trans {u = u} a b = record {
      queued = a.queued ++ b.queued;
      behind = b.behind ∙ (ap (λ z. z ++ b.queued) a.behind ∙ append_assoc u.out a.queued b.queued);
      few = omega (arith, responses-append a.queued b.queued, a.few, b.few);
      fitting =
          All-append (λ (o : Output). Fits o.kind o.bytes) a.queued b.queued a.fitting b.fitting;
    }

    pub queue-Answers :
        (r : Release) (kind : Kind) (b : List ℕ) (w : World S F)
        → Fits kind b
        → Answers (one_response kind) w (queue r kind b w)
    unfolding queue
    queue-Answers r kind b w f = record {
      queued = record { bytes = b; kind = kind; release = r } ∷ [];
      behind = refl;
      few = omega arith;
      fitting = (f, tt);
    }

    -- A PDU that is encoded is queued.
    send_kind-Answers :
        (q : Pdu) (kind : Kind) (n : ℕ) (w : World S F)
        → one_response kind ≡ n
        → ((b : List ℕ) → encode_pdu q none ≡ some b → Fits kind b)
        → Answers n w (send_kind q kind w)
    unfolding send_kind
    send_kind-Answers q kind n w one f = elim (Option-cases (encode_pdu q none)) [
      | inl e ↦ rw (e, send_kind) (same_out n w w refl)
      | inr (b, e) ↦
          rw (e, send_kind)
            (subst (λ m. Answers m w (queue at_once kind b w)) one
              (queue-Answers at_once kind b w (f b e)))
    ]

    pub send-Answers :
        (q : Pdu) (w : World S F)
        → q.sequence_number ≡ seq
        → (q.command_id ≡ cmd) ⊎ (q.command_id ≡ generic_nack)
        → Answers 1 w (send q w)
    unfolding send
    send-Answers q w s c =
        send_kind-Answers q kind_resp 1 w refl (λ b e. (q, none, e, λ _. refl, s, c))

    abbrev with_channel : World S F → World S F
    with_channel w = record w { session = record w.session { channels = w.session.channels + 1 } }

    -- The response of a submit, held back or not.
    pub respond-Answers :
        (q : Pdu) (edge : Option EdgeCaseKind) (ms : ℕ) (w : World S F)
        → (edges ≡ false → edge ≡ none)
        → q.sequence_number ≡ seq
        → (q.command_id ≡ cmd) ⊎ (q.command_id ≡ generic_nack)
        → Answers 1 w (respond (encode_pdu q edge) ms w).0
    unfolding respond
    respond-Answers q edge ms w plain s c = elim (Option-cases (encode_pdu q edge)) [
      | inl e ↦ rw (e, respond) (same_out 1 w w refl)
      | inr (b, e) ↦ elim (Bool-cases (ms == 0)) [
        | inl now ↦
            rw (e, respond, now) (queue-Answers at_once kind_resp b w (q, edge, e, plain, s, c))
        | inr later ↦
            rw (e, respond, later)
              (Answers-trans (same_out 0 w (with_channel w) refl) (
                queue-Answers (after_latency (latency_duration ms) w.session.channels) kind_resp b
                  (with_channel w) (q, edge, e, plain, s, c)))
      ]
    ]

    -- Receipts and mobile-originated messages are no responses.
    emit_after-Answers :
        (sent : ℕ → Bool) (c : Option ℕ) (q : Pdu) (w : World S F)
        → Answers 0 w (emit_after sent c q w)
    emit_after-Answers sent none q w = send_kind-Answers q kind_dlr 0 w refl (λ b e. tt)
    emit_after-Answers sent (some c) q w = elim (Bool-cases (sent c)) [
      | inl yet ↦ rw yet (send_kind-Answers q kind_dlr 0 w refl (λ b e. tt))
      | inr not_yet ↦ rw not_yet (elim (Option-cases (encode_pdu q none)) [
        | inl e ↦ rw e (same_out 0 w w refl)
        | inr (b, e) ↦ rw e (queue-Answers _ kind_dlr b w tt)
      ])
    ]

    dispatch-Answers : (env : Env S) (e : Payload) (w : World S F) → Answers 0 w (dispatch env e w)
    unfolding dispatch emit_dlr emit_mo
    dispatch-Answers env (dlr_event d) w = emit_after-Answers env.sent d.resp_sent _ w
    dispatch-Answers env (mo_event m) w =
        if_both (Answers 0 w) w.session.can_receive
          (send_kind-Answers _ kind_mo 0 w refl (λ b e. tt)) (same_out 0 w w refl)

    dispatch_all-Answers :
        (env : Env S) (es : List (Event Payload)) (w : World S F)
        → Answers 0 w (dispatch_all env es w)
    unfolding dispatch_all
    dispatch_all-Answers env [] w = same_out 0 w w refl
    dispatch_all-Answers env (e ∷ es) w =
        let one = dispatch-Answers env e.payload w in
        let rest = dispatch_all-Answers env es (dispatch env e.payload w) in
        elim (Bool-cases (is_closed (dispatch env e.payload w).session.state)) [
          | inl shut ↦ rw shut one
          | inr going ↦ rw going (Answers-trans one rest)
        ]

    pub drain_session-Answers :
        (env : Env S) (clock : ℕ) (w : World S F) → Answers 0 w (drain_session env clock w)
    unfolding drain_session
    drain_session-Answers env clock w =
        Answers-trans (same_out 0 w (with_sched (drain_due w.session.sched clock).1 w) refl)
          (dispatch_all-Answers env (drain_due w.session.sched clock).0 _)
