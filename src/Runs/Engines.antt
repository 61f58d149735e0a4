-- ===== src/Runs/Engines.antt =====
-- Runs of an engine with one listener: a session is served, and Shutdown waits for it.
use go_smsc_simulator.Common.{
  ◌+◌, ◌≤◌, ◌<◌, ◌≡◌, refl, true, false, List, [], ◌∷◌, ◌++◌, length, All, some, inl, ◌⊎◌,
}
use go_smsc_simulator.Smsc.Engine.{
  EngineState, EngineEvent, returned, blocked, waiting, drained, call_serve, register, unlock,
  receive_quit, accept, spawn, leave_loop, end_session, call_shutdown, close_listener, close_quit,
  read_serving, drain, serve_return, add_one, done_one, engine_step, engine_run, bound_engine,
}
use go_smsc_simulator.Smsc.Engine.Drain.{engine_run-drained, engine_run-proper}
use go_smsc_simulator.Smsc.Engine.Work.{is_call, left}
use go_smsc_simulator.Smsc.Engine.Ends.{IsFinished, CanAct, engine_run-ends}

-- A connection is accepted while Shutdown closes the listener, and becomes a session behind `quit`.
abbrev stopping_events : List EngineEvent
stopping_events =
    call_serve
    ∷ register
    ∷ unlock
    ∷ accept 0
    ∷ call_shutdown
    ∷ close_listener 0
    ∷ close_quit 0
    ∷ spawn 0
    ∷ read_serving 0
    ∷ []

abbrev stopping_engine : EngineState
stopping_engine = record {
  listeners = false ∷ [];
  loops = record { listener = 0; connected = false } ∷ [];
  sessions = 1;
  counter = 2;
  quit = true;
  serving = true;
  serve = blocked;
  stops = waiting ∷ [];
  quit_closes = 1;
  misused = false;
  negative = false;
}

stopping_reached : engine_run stopping_events (bound_engine 1) ≡ some stopping_engine
unfolding engine_run engine_step add_one
stopping_reached = refl

abbrev draining_events : List EngineEvent
draining_events = stopping_events ++ (leave_loop 0 ∷ end_session ∷ drain 0 ∷ [])

abbrev drained_engine : EngineState
drained_engine = record {
  listeners = false ∷ [];
  loops = [];
  sessions = 0;
  counter = 0;
  quit = true;
  serving = true;
  serve = blocked;
  stops = drained ∷ [];
  quit_closes = 1;
  misused = false;
  negative = false;
}

drained_reached : engine_run draining_events (bound_engine 1) ≡ some drained_engine
unfolding engine_run engine_step add_one done_one
drained_reached = refl

abbrev returned_engine : EngineState
returned_engine = record drained_engine { serve = returned }

return_reached : engine_run (receive_quit ∷ serve_return ∷ []) drained_engine ≡ some returned_engine
unfolding engine_run engine_step
return_reached = refl

engine_run-proper_example :
    (stopping_engine.counter ≡ length stopping_engine.loops + stopping_engine.sessions)
    × (stopping_engine.misused ≡ false)
    × (stopping_engine.negative ≡ false)
    × (stopping_engine.quit_closes ≤ 1)
engine_run-proper_example = engine_run-proper 1 stopping_events stopping_engine stopping_reached

engine_run-drained_example :
    All (λ b. b ≡ false) returned_engine.listeners
    × (returned_engine.loops ≡ [])
    × (returned_engine.sessions ≡ 0)
engine_run-drained_example =
    engine_run-drained 1 draining_events (receive_quit ∷ serve_return ∷ []) 0 drained_engine
      returned_engine drained_reached (inl refl) return_reached

engine_run-ends_example :
    (IsFinished stopping_engine ⊎ CanAct stopping_engine)
    × ((v : EngineEvent) (e' : EngineState)
        → is_call v ≡ false
        → engine_step v stopping_engine ≡ some e'
        → left e' < left stopping_engine)
engine_run-ends_example = engine_run-ends 1 stopping_events stopping_engine stopping_reached refl
