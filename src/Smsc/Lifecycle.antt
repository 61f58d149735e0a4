-- ===== src/Smsc/Lifecycle.antt =====
-- The life of a session: what a bound session has, and why a session is closed.
pub mod Loop
use go_smsc_simulator.Common.{
  ℕ, ◌+◌, ◌%◌, ◌^◌, ◌==◌, ◌≡◌, ◌≢◌, refl, ap, ◌∙◌, arith, leb, ltb, Bool, true, false, not, ◌&&◌,
  ◌||◌, List, [], ◌∷◌, drop, if◌then◌else◌, Option, none, some, Bool-cases, Option-cases, if_both,
  inl, inr, bytes_eq, Result, ok, err, length, subst,
}
use go_smsc_simulator.Rng.{Rand}
use go_smsc_simulator.Smpp.Commands.{is_response, generic_nack, status_inv_cmd_len}
use go_smsc_simulator.Smpp.Pdu.{Bind, Message, Pdu, Body}
use go_smsc_simulator.Smpp.Reader.{
  CodecError, short_pdu, bad_command_length, truncated, unterminated, unknown_command,
  bad_short_message, too_many_tlvs, partial_frame, eof, unexpected_eof, timeout, transport,
}
use go_smsc_simulator.Smpp.Decode.{decode}
use go_smsc_simulator.Config.Enums.{DisconnectScope, all, oldest, random, other_scope}
use go_smsc_simulator.Smsc.Binds.{is_oldest}
use go_smsc_simulator.Config.Schema.{ScheduledDisconnect, ScheduledTransition}
use go_smsc_simulator.Scenario.Engine.{
  Outcome, outcome_success, outcome_error, outcome_timeout, outcome_disconnect, DlrPlan, Decision,
  Engine, BindState, reject_bind, disconnect_draw,
}
use go_smsc_simulator.Smsc.CloseReason.{
  CloseReason, panic, scheduled_disconnect, shutdown, bind_rejected, auth_failed, client_unbind,
  idle_timeout,
}
use go_smsc_simulator.Smsc.Session.{
  SessionState, Env, Session, World, lookup_engine, close_with, send, respond, message_id_of,
  encode_pdu,
}
use go_smsc_simulator.Smsc.Events.{
  is_closed, is_before_response, if_true, coin, cut_if, unless_panic, cut_both,
  before_response_loop, cut, next_disconnect, is_disconnect_target, disconnects_loop,
  apply_due_disconnects, apply_transition, next_transition, transitions_loop, apply_due_transitions,
  schedule_configured_events, drain_session, flush_schedule, due_disconnect_before_response,
}
use go_smsc_simulator.Smsc.Submit.{
  answer, as_message, is_disconnect, serve_latency, is_after_response, is_bound, record_of, commit,
  plan_after, settle, conclude, decided_submit, evaluate_submit, handle_submit,
}
use go_smsc_simulator.Smsc.Handle.{
  as_bind, is_open, refuse, accept_bind, authenticate, handle_bind, handle,
}
use go_smsc_simulator.Smsc.ReadLoop.{
  reject_malformed, reject_malformed_id, read_failure, is_protocol_error, fail_read, count_read,
  handle_frame, read_round, read_loop,
}
use go_smsc_simulator.Smsc.Corpus.{plan_after-Quiet}
use go_smsc_simulator.Smsc.Quiet.{
  core, Quiet, send-Quiet, respond-Quiet, schedule_dlr-Quiet, drain_session-Quiet,
  flush_schedule-Quiet, Quiet-refl, Quiet-trans,
}

abbrev pub is_some {ℓ} : {A : Type ℓ} → Option A → Bool
is_some none = false
is_some (some a) = true

abbrev pub is_panic : Option CloseReason → Bool
is_panic (some panic) = true
is_panic _ = false

if_true_known : (b c : Bool) → (r : Bool) × (if_true (some b) (some c) ≡ some r)
if_true_known true c = (true, refl)
if_true_known false c = (c, refl)

module _ {S F : Type 0} where
  -- A bound session has what a submit needs, no panic ended the session, and if it is closed,
  -- something did.
  abbrev pub is_live : Session S F → Bool
  is_live s =
      (not (is_bound s.state) || is_some s.scenario_state && is_some s.current_engine)
      && not (is_panic s.close_reason)
      && (not (is_closed s.state) || is_some s.close_reason)

  pub record Live (w : World S F) : Type 0 where
    pub holds : is_live w.session ≡ true

  pub Live-Quiet : {w w' : World S F} → Quiet w w' → Live w → Live w'
  Live-Quiet q v = record { holds = ap is_live q.session ∙ v.holds }

  pub Live-closed :
      (r : CloseReason) (w : World S F) → is_panic (some r) ≡ false → Live (close_with r w)
  unfolding close_with
  Live-closed r w h = record { holds = ground arith }

  -- With a scenario state the test of a disconnect has an answer.
  abbrev pub HasState : World S F → Type 0
  HasState w = is_some w.session.scenario_state ≡ true

  target_known :
      (s : DisconnectScope) (tick : ℕ) (w : World S F)
      → HasState w
      → (b : Bool) × (is_disconnect_target s tick w ≡ some b)
  unfolding is_disconnect_target
  target_known all tick w h = (true, refl)
  target_known oldest tick w h = (is_oldest w.session.id w.smsc.binds, refl)
  target_known random tick w h = elim (Option-cases w.session.scenario_state) [
    | inl e ↦ absurd (ground arith)
    | inr (st, e) ↦ (disconnect_draw st tick, ap (λ o. coin o tick) e)
  ]
  target_known (other_scope s) tick w h = (false, refl)

  before_response_known :
      (clock : ℕ) (ds : List ScheduledDisconnect) (w : World S F)
      → HasState w
      → (b : Bool) × (before_response_loop clock ds w ≡ some b)
  unfolding before_response_loop
  before_response_known clock [] w h = (false, refl)
  before_response_known clock (d ∷ ds) w h =
      let (b, e) = target_known d.scope d.at_tick w h in
      let (c, rest) = before_response_known clock ds w h in
      rw (e, rest)
        (if_both (λ o. (b : Bool) × (o ≡ some b)) (ltb clock d.at_tick) (false, refl)
          (if_both (λ o. (b : Bool) × (o ≡ some b)) (is_before_response d.fires) (if_true_known b c)
            (c, refl)))

  Live-cut_if :
      (b : Option Bool) (w w' : World S F)
      → (c : Bool) × (b ≡ some c)
      → Live w'
      → Live (cut_if b w w')
  Live-cut_if b w w' (true, e) v = rw e (Live-closed scheduled_disconnect w refl)
  Live-cut_if b w w' (false, e) v = rw e v

  Live-unless :
      (b : Option Bool) (w w' : World S F)
      → (c : Bool) × (b ≡ some c)
      → Live w'
      → Live (unless_panic b w w')
  Live-unless b w w' (c, e) v = rw e v

  Live-next : (w : World S F) → Live w → Live (next_disconnect w)
  Live-next w v = record { holds = v.holds }

  Live-cut :
      (d : ScheduledDisconnect) (w : World S F)
      → HasState w
      → Live w
      → Live (cut d (next_disconnect w))
  Live-cut d w h v =
      Live-cut_if _ (next_disconnect w) (next_disconnect w)
        (target_known d.scope d.at_tick (next_disconnect w) h) (Live-next w v)

  cut-HasState :
      (d : ScheduledDisconnect) (w : World S F) → HasState w → HasState (cut d (next_disconnect w))
  unfolding close_with
  cut-HasState d w h =
      cut_both HasState (is_disconnect_target d.scope d.at_tick (next_disconnect w))
        (next_disconnect w) (next_disconnect w) h h h

  Live-disconnects :
      (tick : ℕ) (ds : List ScheduledDisconnect) (w : World S F)
      → HasState w
      → Live w
      → Live (disconnects_loop tick ds w)
  unfolding disconnects_loop
  Live-disconnects tick [] w h v = v
  Live-disconnects tick (d ∷ ds) w h v =
      let (b, e) = target_known d.scope d.at_tick (next_disconnect w) h in
      let rest : World S F = disconnects_loop tick ds (cut d (next_disconnect w)) in
      if_both Live (leb d.at_tick tick)
        (Live-unless _ (next_disconnect w) rest (b, e)
          (Live-disconnects tick ds _ (cut-HasState d w h) (Live-cut d w h v)))
        v

  HasState-Quiet : {w w' : World S F} → Quiet w w' → HasState w → HasState w'
  HasState-Quiet q h = ap (λ s. is_some s.scenario_state) q.session ∙ h

  Live-settle : (env : Env S) (w : World S F) → HasState w → Live w → Live (settle env w)
  unfolding settle apply_due_disconnects
  Live-settle env w h v =
      let q = drain_session-Quiet env w.session.per_bind_clock w in
      Live-disconnects _ _ _ (HasState-Quiet q h) (Live-Quiet q v)

  Live-conclude :
      (env : Env S) (seq : ℕ) (id : List ℕ) (msg : Message) (d : Decision) (o : Outcome)
      (w : World S F)
      → HasState w
      → Live w
      → Live (conclude env seq id msg d o w)
  unfolding conclude
  Live-conclude env seq id msg d outcome_success w h v =
      let q = Quiet-trans (respond-Quiet _ d.latency_ms w) (plan_after-Quiet id msg d.dlr _ _) in
      Live-settle env _ (HasState-Quiet q h) (Live-Quiet q v)
  Live-conclude env seq id msg d outcome_error w h v =
      let q = respond-Quiet _ d.latency_ms w in
      Live-settle env _ (HasState-Quiet q h) (Live-Quiet q v)
  Live-conclude env seq id msg d outcome_timeout w h v = Live-settle env w h v
  Live-conclude env seq id msg d outcome_disconnect w h v = Live-closed _ _ refl

  Live-commit : (tick : ℕ) (msg : Message) (w : World S F) → Live w → Live (commit tick msg w)
  unfolding commit
  Live-commit tick msg w v = record { holds = v.holds }

  pub Live-decided :
      (env : Env S) (seq tick : ℕ) (msg : Message) (d : Decision) (w : World S F)
      → HasState w
      → Live w
      → Live (decided_submit env seq tick msg d w)
  unfolding decided_submit commit due_disconnect_before_response
  Live-decided env seq tick msg d w h v =
      if_both Live (is_disconnect d.outcome && not (serve_latency env d.latency_ms))
        (Live-closed shutdown w refl)
        (Live-cut_if _ (commit tick msg w) _ (before_response_known _ _ (commit tick msg w) h) (
          Live-conclude env seq (message_id_of w.session.id tick) msg d d.outcome
            (commit tick msg w) h (Live-commit tick msg w v)))

  abbrev pub Prepared : World S F → Type 0
  Prepared w = (is_some w.session.scenario_state ≡ true) × (is_some w.session.current_engine ≡ true)

  pub prepare : (w : World S F) → Live w → is_bound w.session.state ≡ true → Prepared w
  prepare w v h = let e = v.holds in (ground (arith, e), ground (arith, e))

  -- A transition leaves a bound session prepared.
  pub transitions_keep :
      (tick : ℕ) (ts : List ScheduledTransition) (w : World S F)
      → Live w
      → Prepared w
      → Live (transitions_loop tick ts w) × Prepared (transitions_loop tick ts w)
  unfolding transitions_loop apply_transition
  transitions_keep tick [] w v p = (v, p)
  transitions_keep tick (t ∷ ts) w v p =
      if_both (λ z. Live z × Prepared z) _
        (transitions_keep tick ts _ (record { holds = let e = v.holds in ground (arith, e) })
          (ground arith, ground arith))
        (v, p)

  pub Live-refuse :
      (r : CloseReason) (kind id : List ℕ) (p : Pdu) (w : World S F)
      → is_panic (some r) ≡ false
      → Live (refuse r kind id p w)
  Live-refuse r kind id p w h = Live-closed r _ h

  pub Live-sent : (p : Pdu) (w : World S F) → Live w → Live (send p w)
  Live-sent p w v = Live-Quiet (send-Quiet p w) v

  pub Live-malformed :
      (id seq : ℕ) (e : CodecError) (w : World S F) → Live w → Live (reject_malformed_id id seq e w)
  unfolding reject_malformed_id
  Live-malformed id seq unknown_command w v = Live-sent _ w v
  Live-malformed id seq short_pdu w v = if_both Live _ v (Live-sent _ w v)
  Live-malformed id seq bad_command_length w v = if_both Live _ v (Live-sent _ w v)
  Live-malformed id seq truncated w v = if_both Live _ v (Live-sent _ w v)
  Live-malformed id seq unterminated w v = if_both Live _ v (Live-sent _ w v)
  Live-malformed id seq bad_short_message w v = if_both Live _ v (Live-sent _ w v)
  Live-malformed id seq too_many_tlvs w v = if_both Live _ v (Live-sent _ w v)
  Live-malformed id seq partial_frame w v = if_both Live _ v (Live-sent _ w v)
  Live-malformed id seq eof w v = if_both Live _ v (Live-sent _ w v)
  Live-malformed id seq unexpected_eof w v = if_both Live _ v (Live-sent _ w v)
  Live-malformed id seq timeout w v = if_both Live _ v (Live-sent _ w v)
  Live-malformed id seq transport w v = if_both Live _ v (Live-sent _ w v)
