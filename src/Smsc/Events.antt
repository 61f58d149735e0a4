-- ===== src/Smsc/Events.antt =====
-- internal/smsc/dlr.go and schedule_events.go: the receipts and the tick-anchored events of a bind.
use go_smsc_simulator.Common.{
  ℕ, ◌+◌, ◌*◌, ◌%◌, ◌^◌, ltb, leb, Bool, true, false, List, [], ◌∷◌, drop, if◌then◌else◌, Option,
  none, some, codes,
}
use go_smsc_simulator.Smpp.Pdu.{Pdu, Message}
use go_smsc_simulator.Smpp.Receipt.{
  new_delivery_receipt, new_mobile_originated, state_delivered, state_expired, state_undeliverable,
}
use go_smsc_simulator.Config.Enums.{
  Profile, DisconnectScope, all, oldest, random, other_scope, DisconnectWhen, before_response,
  MoMode, scheduled,
}
use go_smsc_simulator.Config.Schema.{
  ScheduledTransition, ScheduledDisconnect, MoEvent, MoInjectionConfig,
}
use go_smsc_simulator.Scenario.Mix.{DlrOutcome, dlr_delivered, dlr_failed, dlr_expired}
use go_smsc_simulator.Scenario.Engine.{BindState, DlrPlan, disconnect_draw}
use go_smsc_simulator.Schedule.{Event, Runner, schedule, drain_due, drain_all}
use go_smsc_simulator.Smsc.Binds.{is_oldest}
use go_smsc_simulator.Smsc.CloseReason.{scheduled_disconnect, panic}
use go_smsc_simulator.Smsc.Session.{
  SessionState, closed_state, DlrEvent, MoPayload, Payload, dlr_event, mo_event, kind_dlr, kind_mo,
  after_channel, Env, World, lookup_engine, encode_pdu, close_with, queue, send_kind,
}

-- `slices.SortedStableFunc` by the tick: an item goes in front of those that are not before it.
unfoldable pub insert_by : {A : Type 0} → (A → ℕ) → A → List A → List A
insert_by tick x [] = x ∷ []
insert_by tick x (y ∷ ys) =
    let after = y ∷ insert_by tick x ys in if ltb (tick y) (tick x) then after else x ∷ y ∷ ys

unfoldable pub sorted_by_tick : {A : Type 0} → (A → ℕ) → List A → List A
sorted_by_tick tick [] = []
sorted_by_tick tick (x ∷ xs) = insert_by tick x (sorted_by_tick tick xs)

unfoldable pub dlr_wire_state : DlrOutcome → ℕ × List ℕ
dlr_wire_state dlr_delivered = (state_delivered, codes "000")
dlr_wire_state dlr_expired = (state_expired, codes "001")
dlr_wire_state dlr_failed = (state_undeliverable, codes "001")

abbrev pub dlr_date_span_minutes : ℕ
dlr_date_span_minutes = 100 * 365 * 24 * 60

-- The epoch and the calendar are Go's `time`: the text of a number of minutes since the epoch.
abbrev pub dlr_date : (ℕ → List ℕ) → ℕ → List ℕ
dlr_date format_minutes tick = format_minutes (tick % dlr_date_span_minutes)

unfoldable pub receipt_of : (ℕ → List ℕ) → DlrEvent → Pdu
receipt_of format_minutes d =
    let (state, code) = dlr_wire_state d.outcome in
    new_delivery_receipt (record {
      message_id = d.message_id;
      state = state;
      error_code = code;
      submit_date = dlr_date format_minutes d.origin_tick;
      done_date = dlr_date format_minutes d.due_tick;
      text = d.text;
      source_addr = d.dest_addr;
      source_addr_ton = d.dest_addr_ton;
      source_addr_npi = d.dest_addr_npi;
      dest_addr = d.source_addr;
      dest_addr_ton = d.source_addr_ton;
      dest_addr_npi = d.source_addr_npi;
    })

-- The loop over the configured MO events.
unfoldable pub schedule_mo : List MoEvent → Runner Payload → Runner Payload
schedule_mo [] r = r
schedule_mo (e ∷ es) r = schedule_mo es (
    schedule r e.at_tick (
      mo_event
        (record { source_addr = e.source_addr; dest_addr = e.dest_addr; content = e.content })))

abbrev pub is_scheduled : MoMode → Bool
is_scheduled scheduled = true
is_scheduled _ = false

unfoldable pub schedule_mo_injection : Option MoInjectionConfig → Runner Payload → Runner Payload
schedule_mo_injection none r = r
schedule_mo_injection (some mo) r = if is_scheduled mo.mode then schedule_mo mo.events r else r

abbrev pub is_closed : SessionState → Bool
is_closed closed_state = true
is_closed _ = false

abbrev pub is_before_response : DisconnectWhen → Bool
is_before_response before_response = true
is_before_response _ = false

-- `s.scenarioState.DisconnectDraw(tick)`, where `none` is the panic of a nil pointer.
abbrev pub coin : {S : Type 0} → Option (BindState S) → ℕ → Option Bool
coin none tick = none
coin (some st) tick = some (disconnect_draw st tick)

-- A test that panicked has no answer.
abbrev pub if_true : Option Bool → Option Bool → Option Bool
if_true none rest = none
if_true (some true) rest = some true
if_true (some false) rest = rest

module _ {S F : Type 0} where
  unfoldable pub schedule_dlr : List ℕ → Message → DlrPlan → Option ℕ → World S F → World S F
  schedule_dlr message_id msg plan sent w =
      let clock = w.session.per_bind_clock in
      let due = (clock + plan.delay_ticks) % 2 ^ 64 in
      if w.session.can_receive
      then record w {
        session = record w.session {
          sched = schedule w.session.sched due (
              dlr_event (record {
                message_id = message_id;
                outcome = plan.outcome;
                origin_tick = clock;
                due_tick = due;
                source_addr = msg.source_addr;
                source_addr_ton = msg.source_addr_ton;
                source_addr_npi = msg.source_addr_npi;
                dest_addr = msg.dest_addr;
                dest_addr_ton = msg.dest_addr_ton;
                dest_addr_npi = msg.dest_addr_npi;
                text = msg.short_message;
                resp_sent = sent;
              }));
        };
      }
      else w

  -- A receipt whose response is still held back waits for it.
  abbrev pub emit_after : (ℕ → Bool) → Option ℕ → Pdu → World S F → World S F
  emit_after sent none p w = send_kind p kind_dlr w
  emit_after sent (some c) p w =
      if sent c
      then send_kind p kind_dlr w
      else elim (encode_pdu p none) [ none ↦ w | some b ↦ queue (after_channel c) kind_dlr b w ]

  unfoldable pub emit_dlr : Env S → DlrEvent → World S F → World S F
  unfolding send_kind receipt_of
  emit_dlr env d w = emit_after env.sent d.resp_sent (receipt_of env.format_minutes d) w

  unfoldable pub emit_mo : MoPayload → World S F → World S F
  emit_mo m w =
      if w.session.can_receive
      then send_kind (new_mobile_originated m.source_addr m.dest_addr m.content) kind_mo w
      else w

  unfoldable pub dispatch : Env S → Payload → World S F → World S F
  dispatch env (dlr_event d) w = emit_dlr env d w
  dispatch env (mo_event m) w = emit_mo m w

  -- The loop of both drains, which stops when the session is closed.
  unfoldable pub dispatch_all : Env S → List (Event Payload) → World S F → World S F
  dispatch_all env [] w = w
  dispatch_all env (e ∷ es) w =
      let w' = dispatch env e.payload w in
      let rest = dispatch_all env es w' in if is_closed w'.session.state then w' else rest

  abbrev pub with_sched : Runner Payload → World S F → World S F
  with_sched r w = record w { session = record w.session { sched = r } }

  -- `drainDue` and `flushSchedule`
  unfoldable pub drain_session : Env S → ℕ → World S F → World S F
  drain_session env clock w =
      let (due, r) = drain_due w.session.sched clock in dispatch_all env due (with_sched r w)

  unfoldable pub flush_schedule : Env S → World S F → World S F
  flush_schedule env w =
      let (due, r) = drain_all w.session.sched in dispatch_all env due (with_sched r w)

  unfoldable pub schedule_configured_events : World S F → World S F
  schedule_configured_events w = record w {
    session = record w.session {
      sched = schedule_mo_injection w.smsc.cfg.mo_injection w.session.sched;
      transitions = sorted_by_tick (λ t. t.at_tick) w.smsc.cfg.scheduled_transitions;
      disconnects = sorted_by_tick (λ d. d.at_tick) w.smsc.cfg.scheduled_disconnects;
    };
  }

  unfoldable pub apply_transition : Profile → World S F → World S F
  apply_transition to w = elim (lookup_engine to w.smsc.engines) [
    | none ↦ w
    | some e ↦ record w {
      session = record w.session { current_engine = some e };
      smsc = record w.smsc { active_profile = to };
    }
  ]

  abbrev pub next_transition : World S F → World S F
  next_transition w = record w {
    session = record w.session { transition_cursor = w.session.transition_cursor + 1 };
  }

  unfoldable pub transitions_loop : ℕ → List ScheduledTransition → World S F → World S F
  transitions_loop tick [] w = w
  transitions_loop tick (t ∷ ts) w =
      let rest = transitions_loop tick ts (next_transition (apply_transition t.to_profile w)) in
      if leb t.at_tick tick then rest else w

  unfoldable pub apply_due_transitions : ℕ → World S F → World S F
  apply_due_transitions tick w =
      transitions_loop tick (drop w.session.transition_cursor w.session.transitions) w

  unfoldable pub is_disconnect_target : DisconnectScope → ℕ → World S F → Option Bool
  is_disconnect_target all tick w = some true
  is_disconnect_target oldest tick w = some (is_oldest w.session.id w.smsc.binds)
  is_disconnect_target random tick w = coin w.session.scenario_state tick
  is_disconnect_target (other_scope s) tick w = some false

  unfoldable pub before_response_loop : ℕ → List ScheduledDisconnect → World S F → Option Bool
  before_response_loop clock [] w = some false
  before_response_loop clock (d ∷ ds) w =
      let rest = before_response_loop clock ds w in
      if ltb clock d.at_tick
      then some false
      else if is_before_response d.fires
      then if_true (is_disconnect_target d.scope d.at_tick w) rest
      else rest

  unfoldable pub due_disconnect_before_response : World S F → Option Bool
  due_disconnect_before_response w =
      before_response_loop w.session.per_bind_clock
        (drop w.session.disconnect_cursor w.session.disconnects) w

  abbrev pub next_disconnect : World S F → World S F
  next_disconnect w = record w {
    session = record w.session { disconnect_cursor = w.session.disconnect_cursor + 1 };
  }

  -- The session is closed if the test says so, and a panic of the test ends it; otherwise it goes on.
  abbrev pub cut_if : Option Bool → World S F → World S F → World S F
  cut_if none w w' = close_with panic w
  cut_if (some true) w w' = close_with scheduled_disconnect w
  cut_if (some false) w w' = w'

  -- The rest of a loop whose test has not panicked.
  abbrev pub unless_panic : Option Bool → World S F → World S F → World S F
  unless_panic none w w' = close_with panic w
  unless_panic (some b) w w' = w'

  abbrev pub cut : ScheduledDisconnect → World S F → World S F
  cut d w = cut_if (is_disconnect_target d.scope d.at_tick w) w w

  unfoldable pub disconnects_loop : ℕ → List ScheduledDisconnect → World S F → World S F
  disconnects_loop tick [] w = w
  disconnects_loop tick (d ∷ ds) w =
      let w' = next_disconnect w in
      let rest = disconnects_loop tick ds (cut d w') in
      if leb d.at_tick tick
      then unless_panic (is_disconnect_target d.scope d.at_tick w') w' rest
      else w

  pub cut_both :
      (P : World S F → Type 0) (b : Option Bool) (w w' : World S F)
      → P (close_with panic w)
      → P (close_with scheduled_disconnect w)
      → P w'
      → P (cut_if b w w')
  cut_both P none w w' p q r = p
  cut_both P (some true) w w' p q r = q
  cut_both P (some false) w w' p q r = r

  pub panic_both :
      (P : World S F → Type 0) (b : Option Bool) (w w' : World S F)
      → P (close_with panic w)
      → P w'
      → P (unless_panic b w w')
  panic_both P none w w' p q = p
  panic_both P (some b) w w' p q = q

  unfoldable pub apply_due_disconnects : ℕ → World S F → World S F
  apply_due_disconnects tick w =
      disconnects_loop tick (drop w.session.disconnect_cursor w.session.disconnects) w
