-- ===== src/Runs/Sessions.antt =====
-- A session on a virtual SMSC with one transition and one scheduled disconnect.
use go_smsc_simulator.Common.{
  arith, pos, ℕ, ◌≡◌, ◌≢◌, refl, true, false, [], ◌∷◌, All, none, some, codes,
}
use go_smsc_simulator.Smpp.Reader.{eof}
use go_smsc_simulator.Common.{ok, err}
use go_smsc_simulator.Config.Enums.{healthy, dead_carrier, all, before_response}
use go_smsc_simulator.Config.Schema.{VirtualSmscConfig}
use go_smsc_simulator.Smsc.Transitions.{passes, apply_due_transitions-passes}
use go_smsc_simulator.Smsc.Events.{apply_due_transitions}
use go_smsc_simulator.Smsc.CloseReason.{panic}
use go_smsc_simulator.Smsc.Session.{bound_state, VirtualSmsc, World, Env, lookup_engine}
use go_smsc_simulator.Smsc.Create.{
  bare, Built, new_virtual_smsc, new_session, build_engines, build_engines_complete,
}
use go_smsc_simulator.Smsc.Events.{
  due_disconnect_before_response, before_response_loop, is_disconnect_target,
}
use go_smsc_simulator.Smsc.Handle.{handle}
use go_smsc_simulator.Smsc.ReadLoop.{read_loop}
use go_smsc_simulator.Smsc.Corpus.{Moves}
use go_smsc_simulator.Smsc.Corpus.Pdus.{handle-Moves}
use go_smsc_simulator.Smsc.Lifecycle.{Live}
use go_smsc_simulator.Smsc.Lifecycle.Loop.{read_loop-Live}
use go_smsc_simulator.Runs.Wire.{sample, sample_frame}
use go_smsc_simulator.Runs.Scenarios.{counting}

abbrev pub cfg : VirtualSmscConfig ℕ
cfg = record {
  name = codes "carrier";
  port = pos 2775;
  addr_ton = pos 1;
  addr_npi = pos 1;
  address_range = [];
  tls = record { enabled = false; cert_file = []; key_file = [] };
  bind_credentials = record { system_id = codes "id"; password = codes "pw" };
  seed = some 7;
  pdu_buffer_size = 4;
  throughput_limit_per_sec = none;
  quiescence_flush_ms = none;
  scenario = bare healthy;
  mo_injection = none;
  scheduled_disconnects = record { at_tick = 1; scope = all; fires = before_response } ∷ [];
  scheduled_transitions = record { at_tick = 2; to_profile = dead_carrier } ∷ [];
}

abbrev pub env : Env ℕ
env = record {
  now = 5;
  sent = λ c. false;
  chaos = (3, 4);
  format_minutes = λ m. m ∷ [];
  quit_before_read = false;
  quit_after_read = false;
  quit_serving = false;
  silent = false;
  deadline_passed = false;
}

abbrev pub smsc : VirtualSmsc ℕ
smsc = new_virtual_smsc cfg

abbrev pub fresh : World ℕ ℕ
fresh = new_session smsc

-- A bound session whose clock has reached the disconnect.
abbrev pub bound : World ℕ ℕ
bound = record fresh {
  session = record fresh.session {
    state = bound_state;
    can_submit = true;
    scenario_state = some (record { rng = 1; sched_base = 0; gate = none });
    current_engine = some smsc.scenario;
    per_bind_clock = 1;
    disconnects = cfg.scheduled_disconnects;
  };
}

handle-Moves_example : Moves bound (handle counting env sample bound)
handle-Moves_example = handle-Moves counting env sample bound

fresh-Live : Live fresh
unfolding new_session
fresh-Live = record { holds = refl }

read_loop-Live_example :
    Live (read_loop counting ((env, ok sample_frame) ∷ (env, err eof) ∷ []) fresh)
    × ((read_loop counting
          ((env, ok sample_frame) ∷ (env, err eof) ∷ [])
          fresh).session.close_reason
        ≢ some panic)
read_loop-Live_example =
    read_loop-Live counting ((env, ok sample_frame) ∷ (env, err eof) ∷ []) fresh fresh-Live

cuts_before : due_disconnect_before_response bound ≡ some true
unfolding due_disconnect_before_response before_response_loop is_disconnect_target new_session
cuts_before = refl

build_engines_complete_example :
    (lookup_engine healthy (build_engines cfg smsc.scenario) ≡ some smsc.scenario)
    × All (Built (build_engines cfg smsc.scenario)) cfg.scheduled_transitions
build_engines_complete_example = build_engines_complete cfg smsc.scenario

apply_due_transitions-passes_example :
    apply_due_transitions 4 (passes (1 ∷ 3 ∷ []) bound) ≡ apply_due_transitions 4 bound
apply_due_transitions-passes_example =
    apply_due_transitions-passes 4 (1 ∷ 3 ∷ []) bound (omega arith, (omega arith, tt))
