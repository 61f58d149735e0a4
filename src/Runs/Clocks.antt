-- ===== src/Runs/Clocks.antt =====
-- The Schedule Runner, the journal and the throughput window.
use go_smsc_simulator.Common.{ℕ, ◌≡◌, refl, arith, List, [], ◌∷◌, ◌++◌, map, max, min}
use mathlib.Core.List.{Perm}
use go_smsc_simulator.Schedule.{Runner}
use go_smsc_simulator.Schedule.Order.{IsSorted, IsWf}
use go_smsc_simulator.Schedule.History.{
  Op, schedules, drains, flushes, step, run, start, item, requested, run_complete, run_in_order,
}
use go_smsc_simulator.Recorder.{RecordedPdu, Filter, zero_pdu, new, snapshot, len}
use go_smsc_simulator.Recorder.Snapshot.{append_all, expected, indexed, snapshot-append_all}
use go_smsc_simulator.Fault.{new_wall_window}
use go_smsc_simulator.Fault.Window.{allow_all, allowed, allow_window}

-- Two events of one tick around an earlier one.
abbrev life : List (Op ℕ)
life = schedules 5 70 ∷ schedules 3 71 ∷ schedules 5 72 ∷ drains 4 ∷ schedules 6 73 ∷ []

abbrev waiting : Runner ℕ
waiting = record {
  pending =
      record { due_tick = 3; seq = 0; payload = 70 }
      ∷ record { due_tick = 5; seq = 1; payload = 71 }
      ∷ [];
  seq = 2;
}

waiting-IsWf : IsWf waiting
waiting-IsWf = record { sorted = ground arith; fresh = ground arith }

run_complete_example :
    Perm (map item ((run start life).emitted ++ (run start life).runner.pending)) (requested life)
    × Perm (map item (step (run start life) flushes).emitted) (requested life)
    × ((step (run start life) flushes).runner.pending ≡ [])
run_complete_example = run_complete life

run_in_order_example : IsSorted (run start life).emitted
run_in_order_example = run_in_order life (ground arith) (omega arith)

abbrev received : List ℕ → RecordedPdu
received to = record zero_pdu { dest_addr = to }

abbrev to_51 : Filter
to_51 = record { source_addr = []; dest_addr = 51 ∷ []; since = 0; limit = 1 }

abbrev three : List RecordedPdu
three = received (51 ∷ []) ∷ received (52 ∷ []) ∷ received (51 ∷ []) ∷ []

snapshot-append_all_example :
    (snapshot (append_all (new 2) three) to_51 ≡ expected (max 2 1) (indexed 0 three) to_51)
    × (len (append_all (new 2) three) ≡ min 3 (max 2 1))
snapshot-append_all_example = snapshot-append_all 2 three to_51 (omega arith)

abbrev pub first_kept : RecordedPdu
first_kept = received (51 ∷ [])

-- A cap of two, four submits within a second.
allow_window_example : allowed (allow_all (new_wall_window 2) (7 ∷ 8 ∷ 9 ∷ 10 ∷ [])).0 ≡ min 4 2
unfolding new_wall_window
allow_window_example = allow_window (new_wall_window 2) 7 (8 ∷ 9 ∷ 10 ∷ []) refl (ground arith)
