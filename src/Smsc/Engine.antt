-- ===== src/Smsc/Engine.antt =====
-- internal/smsc/engine.go: Serve, the accept loops, and calls of Shutdown beside each other. An
-- event is one action of one goroutine on what they share: the listeners, `quit`, `mu` and the wait
-- group. `engine_step` is undefined where the goroutine blocks. `mu` is held from the call of
-- Serve to its unlock; Shutdown reads `serving` under it in one event.
pub mod Invariant
pub mod Waits
pub mod Stops
pub mod Drain
pub mod Work
pub mod Ends
use go_smsc_simulator.Common.{
  ℕ, zero, suc, ◌+◌, ◌-◌, ltb, ◌==◌, Bool, true, false, not, ◌&&◌, ◌||◌, List, [], ◌∷◌, ◌++◌,
  length, get_elem?, set, replicate, Option, none, some, if◌then◌else◌,
}

-- An accept loop, of the listener of that number: in Accept, or behind it with a connection.
pub record Loop : Type 0 where
  pub listener : ℕ
  pub connected : Bool

-- Serve: registering the loop of the listener of that number, at `<-e.quit`, at `e.wg.Wait`.
pub data Serve : Type 0 where
  uncalled : Serve
  registering : ℕ → Serve
  blocked : Serve
  joining : Serve
  returned : Serve

-- A call of Shutdown: closing the listener of that number or behind the last one, before its lock,
-- in its select, and returned: nil with nothing served, nil behind the drain, or with ctx's error.
pub data Stop : Type 0 where
  closing : ℕ → Stop
  locking : Stop
  waiting : Stop
  unserved : Stop
  drained : Stop
  overran : Stop

-- `quit_closes`, `misused` and `negative` are a history: the closes of `quit`, of which a second one
-- panics, an Add at zero beside a Wait, and a Done below zero.
pub record EngineState : Type 0 where
  pub listeners : List Bool
  pub loops : List Loop
  pub sessions : ℕ
  pub counter : ℕ
  pub quit : Bool
  pub serving : Bool
  pub serve : Serve
  pub stops : List Stop
  pub quit_closes : ℕ
  pub misused : Bool
  pub negative : Bool

abbrev pub is_uncalled : Serve → Bool
is_uncalled uncalled = true
is_uncalled _ = false

abbrev pub is_blocked : Serve → Bool
is_blocked blocked = true
is_blocked _ = false

abbrev pub is_joining : Serve → Bool
is_joining joining = true
is_joining _ = false

-- Whether Serve holds `mu`.
abbrev pub is_registering : Serve → Bool
is_registering (registering k) = true
is_registering _ = false

-- Whether a goroutine is in `e.wg.Wait` on behalf of the call, which its overrun leaves behind.
abbrev pub is_waiting : Stop → Bool
is_waiting waiting = true
is_waiting overran = true
is_waiting _ = false

abbrev pub any_waiting : List Stop → Bool
any_waiting [] = false
any_waiting (s ∷ ss) = is_waiting s || any_waiting ss

abbrev pub remove_at {ℓ} : {A : Type ℓ} → ℕ → List A → List A
remove_at i [] = []
remove_at zero (x ∷ xs) = xs
remove_at (suc i) (x ∷ xs) = x ∷ remove_at i xs

-- `e.wg.Add(1)` and `e.wg.Done()`.
unfoldable pub add_one : EngineState → EngineState
add_one e = record e {
  counter = e.counter + 1;
  misused = e.misused || (e.counter == 0 && (is_joining e.serve || any_waiting e.stops));
}

unfoldable pub done_one : EngineState → EngineState
done_one e = record e { counter = e.counter - 1; negative = e.negative || e.counter == 0 }

abbrev pub is_open_at : ℕ → List Bool → Bool
is_open_at k ls = elim (get_elem? ls k) [ none ↦ false | some open_listener ↦ open_listener ]

pub data EngineEvent : Type 0 where
  call_serve : EngineEvent
  register : EngineEvent
  unlock : EngineEvent
  receive_quit : EngineEvent
  serve_return : EngineEvent
  accept : ℕ → EngineEvent
  spawn : ℕ → EngineEvent
  leave_loop : ℕ → EngineEvent
  end_session : EngineEvent
  call_shutdown : EngineEvent
  close_listener : ℕ → EngineEvent
  close_quit : ℕ → EngineEvent
  read_serving : ℕ → EngineEvent
  drain : ℕ → EngineEvent
  overrun : ℕ → EngineEvent

abbrev guard : Bool → EngineState → Option EngineState
guard b e = if b then some e else none

-- The body of the `for` of Serve, and the unlock behind it.
abbrev register_from : Serve → EngineState → Option EngineState
register_from (registering k) e = guard (ltb k (length e.listeners)) (record (add_one e) {
  loops = record { listener = k; connected = false } ∷ e.loops;
  serve = registering (k + 1);
})
register_from _ e = none

abbrev unlock_from : Serve → EngineState → Option EngineState
unlock_from (registering k) e = guard (k == length e.listeners) (record e { serve = blocked })
unlock_from _ e = none

-- `acceptLoop` on the loop at that place.
abbrev accept_at : ℕ → Option Loop → EngineState → Option EngineState
accept_at i none e = none
accept_at i (some l) e =
    guard (not l.connected && is_open_at l.listener e.listeners)
      (record e { loops = set e.loops i (record l { connected = true }) })

abbrev spawn_at : ℕ → Option Loop → EngineState → Option EngineState
spawn_at i none e = none
spawn_at i (some l) e = guard l.connected (record (add_one e) {
  loops = set e.loops i (record l { connected = false });
  sessions = e.sessions + 1;
})

abbrev leave_at : ℕ → Option Loop → EngineState → Option EngineState
leave_at i none e = none
leave_at i (some l) e =
    guard (not l.connected) (record (done_one e) { loops = remove_at i e.loops })

-- `Shutdown` on the call at that place.
abbrev moved : ℕ → Stop → EngineState → EngineState
moved i s e = record e { stops = set e.stops i s }

abbrev close_at : ℕ → Option Stop → EngineState → Option EngineState
close_at i (some (closing k)) e =
    guard (ltb k (length e.listeners))
      (moved i (closing (k + 1)) (record e { listeners = set e.listeners k false }))
close_at i _ e = none

-- `quitOnce.Do`
abbrev quit_at : ℕ → Option Stop → EngineState → Option EngineState
quit_at i (some (closing k)) e = guard (k == length e.listeners) (
    moved i locking
      (record e { quit = true; quit_closes = if e.quit then e.quit_closes else e.quit_closes + 1 }))
quit_at i _ e = none

abbrev read_at : ℕ → Option Stop → EngineState → Option EngineState
read_at i (some locking) e =
    guard (not (is_registering e.serve)) (moved i (if e.serving then waiting else unserved) e)
read_at i _ e = none

abbrev drain_at : ℕ → Option Stop → EngineState → Option EngineState
drain_at i (some waiting) e = guard (e.counter == 0) (moved i drained e)
drain_at i _ e = none

abbrev overrun_at : ℕ → Option Stop → EngineState → Option EngineState
overrun_at i (some waiting) e = some (moved i overran e)
overrun_at i _ e = none

unfoldable pub engine_step : EngineEvent → EngineState → Option EngineState
engine_step call_serve e =
    guard (is_uncalled e.serve) (record e { serving = true; serve = registering 0 })
engine_step register e = register_from e.serve e
engine_step unlock e = unlock_from e.serve e
engine_step receive_quit e = guard (is_blocked e.serve && e.quit) (record e { serve = joining })
engine_step serve_return e =
    guard (is_joining e.serve && e.counter == 0) (record e { serve = returned })
engine_step (accept i) e = accept_at i (get_elem? e.loops i) e
engine_step (spawn i) e = spawn_at i (get_elem? e.loops i) e
engine_step (leave_loop i) e = leave_at i (get_elem? e.loops i) e
engine_step end_session e =
    guard (not (e.sessions == 0)) (record (done_one e) { sessions = e.sessions - 1 })
engine_step call_shutdown e = some (record e { stops = e.stops ++ closing 0 ∷ [] })
engine_step (close_listener i) e = close_at i (get_elem? e.stops i) e
engine_step (close_quit i) e = quit_at i (get_elem? e.stops i) e
engine_step (read_serving i) e = read_at i (get_elem? e.stops i) e
engine_step (drain i) e = drain_at i (get_elem? e.stops i) e
engine_step (overrun i) e = overrun_at i (get_elem? e.stops i) e

unfoldable pub engine_run : List EngineEvent → EngineState → Option EngineState
engine_run [] e = some e
engine_run (v ∷ vs) e = elim (engine_step v e) [ none ↦ none | some e' ↦ engine_run vs e' ]

-- What `New` returns, with so many listeners.
abbrev pub bound_engine : ℕ → EngineState
bound_engine n = record {
  listeners = replicate n true;
  loops = [];
  sessions = 0;
  counter = 0;
  quit = false;
  serving = false;
  serve = uncalled;
  stops = [];
  quit_closes = 0;
  misused = false;
  negative = false;
}
