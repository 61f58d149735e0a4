-- ===== src/Smsc/Quiet.antt =====
-- Queueing for the writer and releasing scheduled events, and what they leave alone.
use go_smsc_simulator.Common.{
  ℕ, inl, inr, ◌≡◌, refl, ◌∙◌, arith, Bool, List, [], ◌∷◌, Option, none, some, Bool-cases,
}
use go_smsc_simulator.Smpp.Pdu.{Pdu, Message}
use go_smsc_simulator.Scenario.Engine.{DlrPlan}
use go_smsc_simulator.Schedule.{Event, Runner, empty, drain_due, drain_all}
use go_smsc_simulator.Smsc.Session.{
  Payload, dlr_event, mo_event, Kind, Env, Session, World, queue, send_kind, send, respond,
}
use go_smsc_simulator.Smsc.Events.{
  is_closed, schedule_dlr, emit_after, emit_dlr, emit_mo, dispatch, dispatch_all, with_sched,
  drain_session, flush_schedule,
}

module _ {S F : Type 0} where
  -- What queueing leaves alone.
  abbrev pub core : Session S F → Session S F
  core s = record s { sched = empty; channels = 0 }

  pub record Quiet (w w' : World S F) : Type 0 where
    pub smsc : w'.smsc ≡ w.smsc
    pub session : core w'.session ≡ core w.session

  pub Quiet-refl : (w : World S F) → Quiet w w
  Quiet-refl w = record { smsc = refl; session = refl }

  pub Quiet-trans : {u v w : World S F} → Quiet u v → Quiet v w → Quiet u w
  Quiet-trans q r = record { smsc = r.smsc ∙ q.smsc; session = r.session ∙ q.session }

  pub send_kind-Quiet : (p : Pdu) (kind : Kind) (w : World S F) → Quiet w (send_kind p kind w)
  unfolding send_kind queue
  send_kind-Quiet p kind w = record { smsc = ground arith; session = ground arith }

  pub send-Quiet : (p : Pdu) (w : World S F) → Quiet w (send p w)
  unfolding send
  send-Quiet p w = send_kind-Quiet p _ w

  pub respond-Quiet : (b : Option (List ℕ)) (ms : ℕ) (w : World S F) → Quiet w (respond b ms w).0
  unfolding respond queue
  respond-Quiet none ms w = Quiet-refl w
  respond-Quiet (some b) ms w = record { smsc = ground arith; session = ground arith }

  pub schedule_dlr-Quiet :
      (id : List ℕ) (msg : Message) (plan : DlrPlan) (sent : Option ℕ) (w : World S F)
      → Quiet w (schedule_dlr id msg plan sent w)
  unfolding schedule_dlr
  schedule_dlr-Quiet id msg plan sent w = record { smsc = ground arith; session = ground arith }

  emit_after-Quiet :
      (sent : ℕ → Bool) (c : Option ℕ) (p : Pdu) (w : World S F) → Quiet w (emit_after sent c p w)
  unfolding queue send_kind
  emit_after-Quiet sent none p w = send_kind-Quiet p _ w
  emit_after-Quiet sent (some c) p w = record { smsc = ground arith; session = ground arith }

  dispatch-Quiet : (env : Env S) (e : Payload) (w : World S F) → Quiet w (dispatch env e w)
  unfolding dispatch emit_dlr emit_mo send_kind queue
  dispatch-Quiet env (dlr_event d) w = emit_after-Quiet env.sent d.resp_sent _ w
  dispatch-Quiet env (mo_event m) w = record { smsc = ground arith; session = ground arith }

  dispatch_all-Quiet :
      (env : Env S) (es : List (Event Payload)) (w : World S F) → Quiet w (dispatch_all env es w)
  unfolding dispatch_all
  dispatch_all-Quiet env [] w = Quiet-refl w
  dispatch_all-Quiet env (e ∷ es) w =
      let one = dispatch-Quiet env e.payload w in
      let all = Quiet-trans one (dispatch_all-Quiet env es (dispatch env e.payload w)) in
      elim (Bool-cases (is_closed (dispatch env e.payload w).session.state)) [
        | inl shut ↦ rw shut one
        | inr going ↦ rw going all
      ]

  with_sched-Quiet : (r : Runner Payload) (w : World S F) → Quiet w (with_sched r w)
  with_sched-Quiet r w = record { smsc = refl; session = refl }

  pub drain_session-Quiet :
      (env : Env S) (clock : ℕ) (w : World S F) → Quiet w (drain_session env clock w)
  unfolding drain_session
  drain_session-Quiet env clock w =
      Quiet-trans (with_sched-Quiet (drain_due w.session.sched clock).1 w)
        (dispatch_all-Quiet env (drain_due w.session.sched clock).0 _)

  pub flush_schedule-Quiet : (env : Env S) (w : World S F) → Quiet w (flush_schedule env w)
  unfolding flush_schedule
  flush_schedule-Quiet env w =
      Quiet-trans (with_sched-Quiet (drain_all w.session.sched).1 w)
        (dispatch_all-Quiet env (drain_all w.session.sched).0 _)
