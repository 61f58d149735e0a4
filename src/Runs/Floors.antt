-- ===== src/Runs/Floors.antt =====
-- Sessions on a virtual SMSC that validation accepts: replayed, and beside each other.
use go_smsc_simulator.Common.{arith, ◌+◌, ℕ, ◌≡◌, ◌≤◌, refl, [], ◌∷◌, none, some}
use go_smsc_simulator.Config.Enums.{profile_eq}
use go_smsc_simulator.Common.{List, Option, ok, err}
use go_smsc_simulator.Smpp.Reader.{eof}
use go_smsc_simulator.Smsc.ReadLoop.{read_loop}
use go_smsc_simulator.Smsc.Create.{new_virtual_smsc, new_session}
use go_smsc_simulator.Smsc.Replay.Loop.{Round, first_run, other_run, read_loop-replay}
use go_smsc_simulator.Smsc.Registry.{
  Floor, FloorEvent, connect, serve, floor_run, floor_step, seat_out, new_floor,
}
use go_smsc_simulator.Smsc.Registry.Sessions.{binds_with, seats_with, registry_exact}
use go_smsc_simulator.Smsc.Registry.Clocks.{all_submits, clock_counts}
use go_smsc_simulator.Runs.Wire.{sample_frame}
use go_smsc_simulator.Runs.Sessions.{env}
use go_smsc_simulator.Runs.Scenarios.{counting}
use go_smsc_simulator.Runs.Configs.{host, carrier, carrier_accepted}

-- A bind_transceiver of system id "id" with password "pw".
abbrev pub bind_frame : List ℕ
bind_frame =
    0 ∷ 0 ∷ 0 ∷ 27 ∷ 0 ∷ 0 ∷ 0 ∷ 9 ∷ 0 ∷ 0 ∷ 0 ∷ 0 ∷ 0 ∷ 0 ∷ 0 ∷ 1 ∷ 105 ∷ 100 ∷ 0 ∷ 112 ∷ 119 ∷ 0
    ∷ 0 ∷ 52 ∷ 0 ∷ 0 ∷ 0 ∷ []

abbrev rounds : List (Round counting)
rounds =
    record { env = env; arrival = ok bind_frame; now = 50; chaos = (3, 3) }
    ∷ record { env = env; arrival = ok sample_frame; now = 100; chaos = (8, 9) }
    ∷ record { env = env; arrival = err eof; now = 7; chaos = (1, 2) }
    ∷ []

read_loop-replay_example :
    read_loop counting (other_run counting rounds) (new_session (new_virtual_smsc (carrier 2775)))
    ≡ read_loop counting (first_run counting rounds) (new_session (new_virtual_smsc (carrier 2775)))
unfolding profile_eq
read_loop-replay_example =
    read_loop-replay counting host (carrier 2775) rounds carrier_accepted refl refl

-- Two connections, of which one binds and the other hangs up.
abbrev events : List (FloorEvent ℕ)
events = connect ∷ connect ∷ serve 1 env (ok bind_frame) ∷ serve 1 env (err eof) ∷ []

abbrev or_new : Option (Floor ℕ ℕ) → Floor ℕ ℕ
or_new none = new_floor (new_virtual_smsc (carrier 2775))
or_new (some f) = f

abbrev reached : Floor ℕ ℕ
reached = or_new (floor_run counting events (new_floor (new_virtual_smsc (carrier 2775))))

events_reach :
    floor_run counting events (new_floor (new_virtual_smsc (carrier 2775))) ≡ some reached
unfolding floor_run floor_step seat_out new_session
events_reach = refl

registry_exact_example :
    (binds_with 1 reached.smsc.binds ≡ seats_with 1 reached.seats)
    × (seats_with 1 reached.seats ≤ 1)
    × (binds_with 0 reached.smsc.binds ≡ 0)
registry_exact_example =
    registry_exact counting (carrier 2775) events reached 0 events_reach (omega arith)

clock_counts_example :
    (reached.gone + all_submits reached.seats ≡ reached.smsc.logical_clock)
    × (reached.smsc.recorder.total ≡ reached.smsc.logical_clock)
clock_counts_example =
    clock_counts counting (carrier 2775) events reached events_reach (omega arith)
