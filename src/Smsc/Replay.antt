-- ===== src/Smsc/Replay.antt =====
-- internal/smsc/session.go: what a session's read goroutine makes of the wall clock and of the
-- process's own randomness.
mod Ungated
mod Round
pub mod Loop
use go_smsc_simulator.Common.{
  ℕ, ◌≡◌, refl, sym, ap, ◌∙◌, subst, arith, Bool, true, false, not, ◌&&◌, List, [], ◌∷◌,
  if◌then◌else◌, Option, none, some, Bool-cases, Option-cases, if_both, inl, inr,
}
use go_smsc_simulator.Smpp.Pdu.{Message}
use go_smsc_simulator.Schedule.{Event, drain_due, drain_all}
use go_smsc_simulator.Scenario.Engine.{
  Decision, Outcome, outcome_success, outcome_error, outcome_timeout, outcome_disconnect,
}
use go_smsc_simulator.Smsc.Session.{
  Payload, dlr_event, mo_event, Env, Session, World, close_with, message_id_of,
}
use go_smsc_simulator.Smsc.Events.{
  due_disconnect_before_response, is_closed, emit_dlr, dispatch, dispatch_all, drain_session,
  flush_schedule, cut, next_disconnect, disconnects_loop, apply_due_disconnects, apply_transition,
  next_transition, transitions_loop,
}
use go_smsc_simulator.Smsc.Submit.{
  settle, plan_after, conclude, decided_submit, commit, is_disconnect, serve_latency,
}
use go_smsc_simulator.Smsc.CloseReason.{CloseReason, shutdown}
use go_smsc_simulator.Config.Schema.{ScheduledDisconnect, ScheduledTransition}
use go_smsc_simulator.Smsc.Quiet.{
  Quiet, Quiet-trans, send-Quiet, respond-Quiet, drain_session-Quiet,
}
use go_smsc_simulator.Smsc.Corpus.{plan_after-Quiet}

-- The same observations at another reading of the clock and of the process's randomness.
abbrev pub reclock : {S : Type 0} → ℕ → S × ℕ → Env S → Env S
reclock now chaos env = record env { now = now; chaos = chaos }

module _ {S F : Type 0} (now : ℕ) (chaos : S × ℕ) (env : Env S) where
  dispatch-reclock :
      (e : Payload) (w : World S F) → dispatch (reclock now chaos env) e w ≡ dispatch env e w
  unfolding dispatch emit_dlr
  dispatch-reclock (dlr_event d) w = refl
  dispatch-reclock (mo_event m) w = refl

  dispatch_all-reclock :
      (es : List (Event Payload)) (w : World S F)
      → dispatch_all (reclock now chaos env) es w ≡ dispatch_all env es w
  unfolding dispatch_all
  dispatch_all-reclock [] w = refl
  dispatch_all-reclock (e ∷ es) w =
      rw (dispatch-reclock e.payload w, dispatch_all-reclock es (dispatch env e.payload w)) refl

  pub flush-reclock :
      (w : World S F) → flush_schedule (reclock now chaos env) w ≡ flush_schedule env w
  unfolding flush_schedule
  flush-reclock w = dispatch_all-reclock _ _

  settle-reclock : (w : World S F) → settle (reclock now chaos env) w ≡ settle env w
  unfolding settle drain_session
  settle-reclock w =
      ap (λ z. apply_due_disconnects z.session.per_bind_clock z) (dispatch_all-reclock _ _)

  conclude-reclock :
      (seq : ℕ) (id : List ℕ) (msg : Message) (d : Decision) (o : Outcome) (w : World S F)
      → conclude (reclock now chaos env) seq id msg d o w ≡ conclude env seq id msg d o w
  unfolding conclude
  conclude-reclock seq id msg d outcome_success w = settle-reclock _
  conclude-reclock seq id msg d outcome_error w = settle-reclock _
  conclude-reclock seq id msg d outcome_timeout w = settle-reclock w
  conclude-reclock seq id msg d outcome_disconnect w = refl

  pub decided-reclock :
      (seq tick : ℕ) (msg : Message) (d : Decision) (w : World S F)
      → decided_submit (reclock now chaos env) seq tick msg d w
        ≡ decided_submit env seq tick msg d w
  unfolding decided_submit
  decided-reclock seq tick msg d w =
      rw
        (conclude-reclock seq (message_id_of w.session.id tick) msg d d.outcome (commit tick msg w))
        refl
