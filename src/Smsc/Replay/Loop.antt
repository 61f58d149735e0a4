-- ===== src/Smsc/Replay/Loop.antt =====
-- internal/smsc/session.go: a whole session replayed at other times.
use go_smsc_simulator.Common.{ℕ, ◌≡◌, refl, true, false, List, [], ◌∷◌, Result}
use go_smsc_simulator.Rng.{Rand}
use go_smsc_simulator.Smpp.Reader.{CodecError}
use go_smsc_simulator.Config.Schema.{VirtualSmscConfig}
use go_smsc_simulator.Config.Topology.{
  Host, throughput_exempt, is_seeded, validate_numbers, validate_seed, validate_virtual_smsc,
}
use go_smsc_simulator.Config.Faults.{clean_both}
use go_smsc_simulator.Config.Accepted.Replay.{unlimited, uncapped}
use go_smsc_simulator.Smsc.Session.{Env, World}
use go_smsc_simulator.Smsc.ReadLoop.{read_round, read_loop}
use go_smsc_simulator.Smsc.Create.{new_virtual_smsc, new_session}
use go_smsc_simulator.Smsc.Replay.{reclock}
use go_smsc_simulator.Smsc.Replay.Ungated.{Ungated}
use go_smsc_simulator.Smsc.Replay.Round.{round-Replayed}

module _ (R : Rand) where
  open R use {Source, Float}

  -- A round of a run, and the clock and the process's randomness of another run at that round.
  pub record Round : Type 0 where
    pub env : Env Source
    pub arrival : Result CodecError (List ℕ)
    pub now : ℕ
    pub chaos : Source × ℕ

  abbrev pub first_run : List Round → List (Env Source × Result CodecError (List ℕ))
  first_run [] = []
  first_run (r ∷ rs) = (r.env, r.arrival) ∷ first_run rs

  abbrev pub other_run : List Round → List (Env Source × Result CodecError (List ℕ))
  other_run [] = []
  other_run (r ∷ rs) = (reclock r.now r.chaos r.env, r.arrival) ∷ other_run rs

  loop-same :
      (rs : List Round) (w : World Source Float)
      → Ungated R w
      → read_loop R (other_run rs) w ≡ read_loop R (first_run rs) w
  unfolding read_loop
  loop-same [] w v = refl
  loop-same (r ∷ rs) w v =
      let one = round-Replayed R r.now r.chaos r.env r.arrival w v in
      rw (one.same, loop-same rs (read_round R r.env r.arrival w) one.ungated) refl

  -- Of a virtual SMSC that validation accepts, with a seed and an initial profile other than the two
  -- throughput profiles: a session on it that meets the same arrivals, shutdowns, silences and
  -- released responses queues the same octets and ends in the same state, journal and clocks, whatever
  -- the wall clock reads and whatever the random numbers of the process are.
  pub read_loop-replay :
      (host : Host) (vs : VirtualSmscConfig Float) (rs : List Round)
      → validate_virtual_smsc R host vs ≡ []
      → is_seeded vs.seed ≡ true
      → throughput_exempt vs.scenario.profile ≡ false
      → read_loop R (other_run rs) (new_session (new_virtual_smsc vs))
        ≡ read_loop R (first_run rs) (new_session (new_virtual_smsc vs))
  unfolding validate_virtual_smsc new_session new_virtual_smsc
  read_loop-replay host vs rs h seeded plain =
      let checks =
        (clean_both {xs = validate_seed R vs} (clean_both {xs = validate_numbers R vs} h).1).0 in
      loop-same rs (new_session (new_virtual_smsc vs)) (record {
        gate = refl;
        seeded = seeded;
        capless =
            uncapped R vs.scenario vs.throughput_limit_per_sec (unlimited R vs checks seeded plain)
              plain;
      })
