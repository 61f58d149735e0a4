-- ===== src/Smsc/Registry/Invariant.antt =====
-- What holds of every floor that its events reach, from what each kind of event keeps.
use go_smsc_simulator.Common.{
  ℕ, suc, ◌+◌, ◌^◌, ◌<◌, ◌≡◌, subst, arith, List, [], ◌∷◌, length, some, Option-cases, Bool-cases,
  inl, inr, Result,
}
use go_smsc_simulator.Rng.{Rand}
use go_smsc_simulator.Smpp.Reader.{CodecError}
use go_smsc_simulator.Smsc.Binds.{remove}
use go_smsc_simulator.Smsc.Session.{Env, World}
use go_smsc_simulator.Smsc.Events.{is_closed}
use go_smsc_simulator.Smsc.ReadLoop.{read_round}
use go_smsc_simulator.Smsc.Create.{new_session}
use go_smsc_simulator.Smsc.Registry.{
  Seat, Floor, FloorEvent, connect, serve, depart, seat_out, seated, world_of, floor_step,
  floor_run,
}

module _ (R : Rand) where
  open R use {Source, Float}

  abbrev pub connected : Floor Source Float → Floor Source Float
  connected f = record f { seats = seated (new_session f.smsc) ∷ f.seats }

  abbrev pub with_round :
      List (Seat Source Float) → World Source Float → Floor Source Float → Floor Source Float
  with_round rest w f = record f { smsc = w.smsc; seats = seated w ∷ rest }

  abbrev pub departed :
      List (Seat Source Float) → Seat Source Float → Floor Source Float → Floor Source Float
  departed rest s f = record {
    smsc = record f.smsc { binds = remove s.session.id f.smsc.binds };
    seats = rest;
    gone = f.gone + s.session.per_bind_clock;
  }

  -- `I k` is to hold after `k` events.
  module _ (I : ℕ → Floor Source Float → Type 0)
      (connects : (k : ℕ) (f : Floor Source Float) → I k f → I (suc k) (connected f))
      (serves : (k i : ℕ) (f : Floor Source Float) (s : Seat Source Float)
          (rest : List (Seat Source Float)) (env : Env Source)
          (arrival : Result CodecError (List ℕ))
        → I k f
        → suc k < 2 ^ 64
        → seat_out i f.seats ≡ some (s, rest)
        → I (suc k) (with_round rest (read_round R env arrival (world_of s f.smsc)) f))
      (departs : (k i : ℕ) (f : Floor Source Float) (s : Seat Source Float)
          (rest : List (Seat Source Float))
        → I k f
        → seat_out i f.seats ≡ some (s, rest)
        → I (suc k) (departed rest s f)) where
    step-keeps :
        (k : ℕ) (e : FloorEvent Source) (f f' : Floor Source Float)
        → I k f
        → suc k < 2 ^ 64
        → floor_step R e f ≡ some f'
        → I (suc k) f'
    unfolding floor_step
    step-keeps k connect f f' v small h =
        subst (I (suc k)) {x = connected f} {y = f'} (ground arith) (connects k f v)
    step-keeps k (serve i env arrival) f f' v small h = elim (Option-cases (seat_out i f.seats)) [
      | inl e ↦ absurd (ground arith)
      | inr ((s, rest), at) ↦ elim (Bool-cases (is_closed s.session.state)) [
        | inl shut ↦ absurd (ground arith)
        | inr going ↦
            subst (I (suc k)) {x = with_round rest (read_round R env arrival (world_of s f.smsc)) f}
              {y = f'} (ground arith) (serves k i f s rest env arrival v small at)
      ]
    ]
    step-keeps k (depart i) f f' v small h = elim (Option-cases (seat_out i f.seats)) [
      | inl e ↦ absurd (ground arith)
      | inr ((s, rest), at) ↦ elim (Bool-cases (is_closed s.session.state)) [
        | inr going ↦ absurd (ground arith)
        | inl shut ↦
            subst (I (suc k)) {x = departed rest s f} {y = f'} (ground arith)
              (departs k i f s rest v at)
      ]
    ]

    pub run-keeps :
        (k : ℕ) (es : List (FloorEvent Source)) (f f' : Floor Source Float)
        → I k f
        → k + length es < 2 ^ 64
        → floor_run R es f ≡ some f'
        → I (k + length es) f'
    unfolding floor_run
    run-keeps k [] f f' v small h =
        subst (I (k + 0)) {x = f} {y = f'} (ground arith) (subst (λ n. I n f) (omega arith) v)
    run-keeps k (e ∷ es) f f' v small h = elim (Option-cases (floor_step R e f)) [
      | inl stuck ↦ absurd (ground arith)
      | inr (m, at) ↦
          subst (λ n. I n f') {x = suc k + length es} {y = k + length (e ∷ es)} (omega arith)
            (run-keeps (suc k) es m f' (step-keeps k e f m v (omega (arith, small)) at)
              (omega (arith, small)) (ground arith))
    ]
