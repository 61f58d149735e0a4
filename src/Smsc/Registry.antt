-- ===== src/Smsc/Registry.antt =====
-- internal/smsc: several sessions on one virtual SMSC. A round of one session's read loop is one
-- step: what it shares with the other sessions are the atomic counters and the registry and journal
-- under their mutexes. The sessions are a bag: one that has moved stands at the front.
pub mod Round
pub mod Invariant
pub mod Sessions
pub mod Clocks
use go_smsc_simulator.Common.{
  ℕ, zero, suc, ◌+◌, ◌==◌, Bool, true, false, List, [], ◌∷◌, length, Option, none, some,
  if◌then◌else◌, Result,
}
use go_smsc_simulator.Rng.{Rand}
use go_smsc_simulator.Smpp.Reader.{CodecError}
use go_smsc_simulator.Smsc.Binds.{BindInfo, remove}
use go_smsc_simulator.Smsc.Session.{Env, Session, Output, VirtualSmsc, World}
use go_smsc_simulator.Smsc.Events.{is_closed}
use go_smsc_simulator.Smsc.ReadLoop.{read_round}
use go_smsc_simulator.Smsc.Create.{new_session}

-- A session's own part of its world.
pub record Seat (S F : Type 0) : Type 0 where
  pub session : Session S F
  pub out : List Output

-- `gone` is a history: the submits of the sessions that have left.
pub record Floor (S F : Type 0) : Type 0 where
  pub smsc : VirtualSmsc F
  pub seats : List (Seat S F)
  pub gone : ℕ

pub data FloorEvent (S : Type 0) : Type 0 where
  connect : FloorEvent S
  serve : ℕ → Env S → Result CodecError (List ℕ) → FloorEvent S
  depart : ℕ → FloorEvent S

module _ {S F : Type 0} where
  unfoldable pub seat_out : ℕ → List (Seat S F) → Option (Seat S F × List (Seat S F))
  seat_out i [] = none
  seat_out zero (s ∷ ss) = some (s, ss)
  seat_out (suc i) (s ∷ ss) = elim (seat_out i ss) [ none ↦ none | some (t, ts) ↦ some (t, s ∷ ts) ]

  abbrev pub seated : World S F → Seat S F
  seated w = record { session = w.session; out = w.out }

  abbrev pub world_of : Seat S F → VirtualSmsc F → World S F
  world_of s v = record { session = s.session; smsc = v; out = s.out }

module _ (R : Rand) where
  open R use {Source, Float}

  -- The accept loop's new session, a round of a session that is not closed, and the teardown of one
  -- that is, which takes it out of the registry.
  unfoldable pub floor_step : FloorEvent Source → Floor Source Float → Option (Floor Source Float)
  unfolding seat_out
  floor_step connect f = some (record f { seats = seated (new_session f.smsc) ∷ f.seats })
  floor_step (serve i env arrival) f = elim (seat_out i f.seats) [
    | none ↦ none
    | some (s, ss) ↦
        let w = read_round R env arrival (world_of s f.smsc) in
        if is_closed s.session.state
        then none
        else some (record f { smsc = w.smsc; seats = seated w ∷ ss })
  ]
  floor_step (depart i) f = elim (seat_out i f.seats) [
    | none ↦ none
    | some (s, ss) ↦
        if is_closed s.session.state
        then some (record {
          smsc = record f.smsc { binds = remove s.session.id f.smsc.binds };
          seats = ss;
          gone = f.gone + s.session.per_bind_clock;
        })
        else none
  ]

  unfoldable pub floor_run :
      List (FloorEvent Source) → Floor Source Float → Option (Floor Source Float)
  floor_run [] f = some f
  floor_run (e ∷ es) f = elim (floor_step e f) [ none ↦ none | some f' ↦ floor_run es f' ]

abbrev pub new_floor : {S F : Type 0} → VirtualSmsc F → Floor S F
new_floor v = record { smsc = v; seats = []; gone = 0 }
