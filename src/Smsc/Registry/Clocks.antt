-- ===== src/Smsc/Registry/Clocks.antt =====
-- The clock of a virtual SMSC and its journal, whatever its sessions do in whatever order.
use go_smsc_simulator.Common.{
  ℕ, zero, suc, ◌+◌, ◌^◌, ◌≤◌, ◌<◌, ◌==◌, ◌≡◌, refl, sym, ap, ◌∙◌, arith, not, List, [], ◌∷◌,
  length, some, Option-cases, inl, inr, if_both, Result, ok, err,
}
use native.Mathlib.Nat.{mod-eq_of_lt}
use go_smsc_simulator.Rng.{Rand}
use go_smsc_simulator.Smpp.Pdu.{Pdu}
use go_smsc_simulator.Smpp.Commands.{is_response}
use go_smsc_simulator.Smpp.Reader.{CodecError, unknown_command, timeout}
use go_smsc_simulator.Smpp.Decode.{decode}
use go_smsc_simulator.Schedule.{len}
use go_smsc_simulator.Config.Schema.{VirtualSmscConfig}
use go_smsc_simulator.Recorder
use go_smsc_simulator.Recorder.{append}
use go_smsc_simulator.Smsc.CloseReason.{shutdown, idle_timeout}
use go_smsc_simulator.Smsc.Session.{Env, World}
use go_smsc_simulator.Smsc.ReadLoop.{
  reject_malformed, reject_malformed_id, read_failure, is_protocol_error, fail_read, count_read,
  handle_frame, read_round,
}
use go_smsc_simulator.Smsc.Create.{new_session, new_virtual_smsc}
use go_smsc_simulator.Smsc.Quiet.{send-Quiet, flush_schedule-Quiet}
use go_smsc_simulator.Smsc.Corpus.{
  next_tick, Kept, Kept-refl, Kept-trans, Kept-of_Quiet, close_with-Kept, Moves, stays, commits,
}
use go_smsc_simulator.Smsc.Corpus.Pdus.{handle-Moves}
use go_smsc_simulator.Smsc.Registry.Invariant.{connected, departed, run-keeps}
use go_smsc_simulator.Smsc.Registry.{
  Seat, Floor, FloorEvent, seat_out, seated, world_of, floor_run, new_floor,
}

module _ {S F : Type 0} where
  malformed-Kept :
      (id seq : ℕ) (e : CodecError) (w : World S F) → Kept w (reject_malformed_id id seq e w)
  unfolding reject_malformed_id
  malformed-Kept id seq unknown_command w = Kept-of_Quiet (send-Quiet _ w)
  malformed-Kept id seq e w =
      if_both (Kept w) (is_response id) (Kept-refl w) (Kept-of_Quiet (send-Quiet _ w))

  -- The submits of all sessions.
  abbrev pub all_submits : List (Seat S F) → ℕ
  all_submits [] = 0
  all_submits (s ∷ ss) = s.session.per_bind_clock + all_submits ss

  all_submits-seat_out :
      (i : ℕ) (ss : List (Seat S F)) (s : Seat S F) (rest : List (Seat S F))
      → seat_out i ss ≡ some (s, rest)
      → all_submits ss ≡ s.session.per_bind_clock + all_submits rest
  unfolding seat_out
  all_submits-seat_out i [] s rest h = absurd (cc h)
  all_submits-seat_out zero (t ∷ ss) s rest h = ground arith
  all_submits-seat_out (suc i) (t ∷ ss) s rest h = elim (Option-cases (seat_out i ss)) [
    | inl e ↦ absurd (ground arith)
    | inr ((u, us), e) ↦ let a = all_submits-seat_out i ss u us e in ground arith
  ]

  -- After `k` events.
  record Counted (k : ℕ) (f : Floor S F) : Type 0 where
    bounded : f.smsc.logical_clock ≤ k
    submits : f.gone + all_submits f.seats ≡ f.smsc.logical_clock
    journal : f.smsc.recorder.total ≡ f.smsc.logical_clock

module _ (R : Rand) where
  open R use {Source, Float}

  fail_read-Kept :
      (env : Env Source) (e : CodecError) (w : World Source Float) → Kept w (fail_read R env e w)
  unfolding fail_read
  fail_read-Kept env timeout w = if_both (Kept w) env.quit_after_read (close_with-Kept shutdown w) (
      if_both (Kept w) (not (len w.session.sched == 0))
        (if_both (Kept w) env.silent (Kept-of_Quiet (flush_schedule-Quiet env w)) (Kept-refl w))
        (close_with-Kept idle_timeout w))
  fail_read-Kept env e w =
      let c = close_with-Kept (read_failure R env e) w in
      if_both (Kept w) (is_protocol_error R (read_failure R env e))
        (Kept-trans c (Kept-of_Quiet (send-Quiet _ _))) c

  frame-Moves :
      (env : Env Source) (frame : List ℕ) (x : Result CodecError Pdu) (w : World Source Float)
      → Moves w (handle_frame R env frame x w)
  unfolding reject_malformed
  frame-Moves env frame (err e) w = stays (malformed-Kept _ _ e w)
  frame-Moves env frame (ok p) w = handle-Moves R env p w

  counted : {w w' : World Source Float} → Moves (count_read R w) w' → Moves w w'
  counted (stays k) = stays (record { clock = k.clock; logical = k.logical; journal = k.journal })
  counted (commits c) =
      commits (record { msg = c.msg; clock = c.clock; logical = c.logical; journal = c.journal })

  round-Moves :
      (env : Env Source) (arrival : Result CodecError (List ℕ)) (w : World Source Float)
      → Moves w (read_round R env arrival w)
  unfolding read_round
  round-Moves env (err e) w =
      if_both (Moves w) env.quit_before_read (stays (close_with-Kept shutdown w))
        (stays (fail_read-Kept env e w))
  round-Moves env (ok frame) w =
      if_both (Moves w) env.quit_before_read (stays (close_with-Kept shutdown w))
        (counted (frame-Moves env frame (decode frame) (count_read R w)))

  served :
      (k : ℕ) (f : Floor Source Float) (i : ℕ) (s : Seat Source Float)
      (rest : List (Seat Source Float)) (w : World Source Float)
      → Counted k f
      → suc k < 2 ^ 64
      → seat_out i f.seats ≡ some (s, rest)
      → Moves (world_of s f.smsc) w
      → Counted (suc k) (record f { smsc = w.smsc; seats = seated w ∷ rest })
  unfolding append
  served k f i s rest w v small at (stays m) =
      let out = all_submits-seat_out i f.seats s rest at in
      let a = v.submits in
      record {
        bounded = omega (arith, v.bounded, m.logical);
        submits = omega (arith, a, out, m.clock, m.logical);
        journal = ap (λ r. r.total) m.journal ∙ (v.journal ∙ sym m.logical);
      }
  served k f i s rest w v small at (commits c) =
      let out = all_submits-seat_out i f.seats s rest at in
      let a = v.submits in
      let b = v.bounded in
      let up =
        mod-eq_of_lt {n = s.session.per_bind_clock + 1} {m = 2 ^ 64}
          (omega (arith, a, b, out, small)) in
      let up' =
        mod-eq_of_lt {n = f.smsc.logical_clock + 1} {m = 2 ^ 64} (omega (arith, b, small)) in
      record {
        bounded = omega (arith, b, c.logical ∙ up');
        submits = omega (arith, a, out, c.clock ∙ up, c.logical ∙ up');
        journal = ap (λ r. r.total) c.journal ∙ (ap next_tick v.journal ∙ sym c.logical);
      }

  new_floor-Counted :
      (cfg : VirtualSmscConfig Float) → Counted {S = Source} 0 (new_floor (new_virtual_smsc cfg))
  unfolding new_virtual_smsc Recorder.new
  new_floor-Counted cfg = record { bounded = omega arith; submits = refl; journal = refl }

  connected-Counted :
      (k : ℕ) (f : Floor Source Float) → Counted k f → Counted (suc k) (connected R f)
  unfolding new_session
  connected-Counted k f v = record {
    bounded = omega (arith, v.bounded);
    submits = omega (arith, v.submits);
    journal = v.journal;
  }

  departed-Counted :
      (k i : ℕ) (f : Floor Source Float) (s : Seat Source Float) (rest : List (Seat Source Float))
      → Counted k f
      → seat_out i f.seats ≡ some (s, rest)
      → Counted (suc k) (departed R rest s f)
  departed-Counted k i f s rest v at = record {
    bounded = omega (arith, v.bounded);
    submits = omega (arith, v.submits, all_submits-seat_out i f.seats s rest at);
    journal = v.journal;
  }

  -- On a new virtual SMSC, whatever its sessions do in whatever order, up to fewer than 2^64 steps:
  -- its clock is the number of submits on the clocks of all its binds together, those that have left
  -- included, and the number of PDUs that its journal has taken in.
  pub clock_counts :
      (cfg : VirtualSmscConfig Float) (es : List (FloorEvent Source)) (f : Floor Source Float)
      → floor_run R es (new_floor (new_virtual_smsc cfg)) ≡ some f
      → length es < 2 ^ 64
      → (f.gone + all_submits f.seats ≡ f.smsc.logical_clock)
        × (f.smsc.recorder.total ≡ f.smsc.logical_clock)
  clock_counts cfg es f h small =
      let v =
        run-keeps R Counted connected-Counted
          (λ k i g s rest env arrival u fits at.
            served k g i s rest _ u fits at (round-Moves env arrival (world_of s g.smsc)))
          departed-Counted 0 es (new_floor (new_virtual_smsc cfg)) f (new_floor-Counted cfg)
          (omega (arith, small)) h in
      (v.submits, v.journal)
