-- ===== src/Smsc/Engine/Drain.antt =====
-- What a return of Serve and Shutdown promises.
use go_smsc_simulator.Common.{
  nil_of, ℕ, ◌+◌, ◌≤◌, ◌≡◌, refl, subst, arith, Bool, true, false, List, [], ◌∷◌, length, get_elem?,
  All, Option, none, some, Option-cases, inl, inr, ◌⊎◌,
}
use go_smsc_simulator.Smsc.Engine.{
  Serve, uncalled, registering, blocked, joining, returned, Stop, closing, locking, waiting,
  unserved, drained, overran, EngineState, is_uncalled, register_from, unlock_from, accept_at,
  spawn_at, leave_at, close_at, quit_at, read_at, drain_at, overrun_at, EngineEvent, call_serve,
  register, unlock, receive_quit, serve_return, accept, spawn, leave_loop, end_session,
  call_shutdown, close_listener, close_quit, read_serving, drain, overrun, engine_step, engine_run,
  bound_engine,
}
use go_smsc_simulator.Smsc.Engine.Invariant.{
  is_settled, StopOk, ServeOk, Sound, closed_upto, All-get_elem?,
}
use go_smsc_simulator.Smsc.Engine.Waits.{
  Sound-register, Sound-accept, Sound-spawn, Sound-leave_loop, Sound-end_session, Sound-call_serve,
  Sound-unlock, Sound-receive_quit, Sound-serve_return,
}
use go_smsc_simulator.Smsc.Engine.Stops.{
  Sound-close_at, Sound-quit_at, Sound-read_at, Sound-drain_at, Sound-overrun_at,
  Sound-call_shutdown,
}

pub Sound-step :
    (v : EngineEvent) (e e' : EngineState) → Sound e → engine_step v e ≡ some e' → Sound e'
unfolding engine_step
Sound-step call_serve e e' s h = Sound-call_serve e e' s h
Sound-step register e e' s h = Sound-register e.serve e e' s refl h
Sound-step unlock e e' s h = Sound-unlock e.serve e e' s refl h
Sound-step receive_quit e e' s h = Sound-receive_quit e e' s h
Sound-step serve_return e e' s h = Sound-serve_return e e' s h
Sound-step (accept i) e e' s h = Sound-accept i (get_elem? e.loops i) e e' s h
Sound-step (spawn i) e e' s h = Sound-spawn i (get_elem? e.loops i) e e' s refl h
Sound-step (leave_loop i) e e' s h = Sound-leave_loop i (get_elem? e.loops i) e e' s refl h
Sound-step end_session e e' s h = Sound-end_session e e' s h
Sound-step call_shutdown e e' s h = Sound-call_shutdown e e' s h
Sound-step (close_listener i) e e' s h = Sound-close_at i (get_elem? e.stops i) e e' s refl h
Sound-step (close_quit i) e e' s h = Sound-quit_at i (get_elem? e.stops i) e e' s refl h
Sound-step (read_serving i) e e' s h = Sound-read_at i (get_elem? e.stops i) e e' s refl h
Sound-step (drain i) e e' s h = Sound-drain_at i (get_elem? e.stops i) e e' s refl h
Sound-step (overrun i) e e' s h = Sound-overrun_at i (get_elem? e.stops i) e e' s refl h

-- What every step keeps, every run keeps.
run_keeps :
    (P : EngineState → Type 0)
    → ((v : EngineEvent) (e e' : EngineState) → P e → engine_step v e ≡ some e' → P e')
    → (vs : List EngineEvent) (e e' : EngineState) → P e
    → engine_run vs e ≡ some e'
    → P e'
unfolding engine_run
run_keeps P step [] e e' p h = subst P (cc h) p
run_keeps P step (v ∷ vs) e e' p h = elim (Option-cases (engine_step v e)) [
  | inl at ↦ absurd (ground arith)
  | inr (m, at) ↦ run_keeps P step vs m e' (step v e m p at) (ground arith)
]

bound_engine-Sound : (n : ℕ) → Sound (bound_engine n)
bound_engine-Sound n = record {
  counted = refl;
  quit_last = refl;
  serve_ok = tt;
  served = refl;
  stops_ok = tt;
  once = refl;
  proper = refl;
  nonnegative = refl;
}

pub Sound-run :
    (n : ℕ) (vs : List EngineEvent) (e : EngineState)
    → engine_run vs (bound_engine n) ≡ some e
    → Sound e
Sound-run n vs e h = run_keeps Sound Sound-step vs (bound_engine n) e (bound_engine-Sound n) h

-- Whatever the goroutines of an engine and any number of calls of Shutdown have done: its wait group
-- counts the accept loops and the sessions that run; no Add met a Wait at zero, no Done went below
-- zero, and `quit` was closed once at most.
pub engine_run-proper :
    (n : ℕ) (vs : List EngineEvent) (e : EngineState)
    → engine_run vs (bound_engine n) ≡ some e
    → (e.counter ≡ length e.loops + e.sessions)
      × (e.misused ≡ false)
      × (e.negative ≡ false)
      × (e.quit_closes ≤ 1)
engine_run-proper n vs e h =
    let s = Sound-run n vs e h in (s.counted, s.proper, s.nonnegative, ground (arith, s.once))

record Over (e : EngineState) : Type 0 where
  sound : Sound e
  settled : is_settled e.serve ≡ true
  nobody : e.counter ≡ 0
  quitting : e.quit ≡ true

all_closed : (ls : List Bool) → closed_upto (length ls) ls ≡ true → All (λ b. b ≡ false) ls
all_closed [] h = tt
all_closed (b ∷ ls) h = (ground arith, all_closed ls (ground arith))

no_loops : (e : EngineState) → Over e → (e.loops ≡ []) × (e.sessions ≡ 0)
no_loops e o =
    let c = (o.sound).counted in (nil_of e.loops (omega (arith, o.nobody)), omega (arith, o.nobody))

-- What is over stays as it is.
abbrev Stays : EngineState → EngineState → Type 0
Stays e e' = (is_settled e'.serve ≡ true) × (e'.counter ≡ 0) × (e'.quit ≡ true)

Over-serve :
    (s : Serve) (e e' : EngineState)
    → Over e
    → e.serve ≡ s
    → (register_from s e ≡ some e') ⊎ (unlock_from s e ≡ some e')
    → Stays e e'
Over-serve uncalled e e' o at h = absurd (ground (arith, o.settled))
Over-serve (registering k) e e' o at h = absurd (ground (arith, o.settled))
Over-serve blocked e e' o at (inl h) = absurd (cc h)
Over-serve blocked e e' o at (inr h) = absurd (cc h)
Over-serve joining e e' o at (inl h) = absurd (cc h)
Over-serve joining e e' o at (inr h) = absurd (cc h)
Over-serve returned e e' o at (inl h) = absurd (cc h)
Over-serve returned e e' o at (inr h) = absurd (cc h)

serve_called : (s : Serve) → is_settled s ≡ true → is_uncalled s ≡ false
serve_called uncalled h = absurd (cc h)
serve_called (registering k) h = refl
serve_called blocked h = refl
serve_called joining h = refl
serve_called returned h = refl

Over-loop :
    (i : ℕ) (e e' : EngineState)
    → Over e
    → ((accept_at i (get_elem? e.loops i) e ≡ some e')
        ⊎ (spawn_at i (get_elem? e.loops i) e ≡ some e')
        ⊎ (leave_at i (get_elem? e.loops i) e ≡ some e'))
    → Stays e e'
Over-loop i e e' o h =
    let none_there : get_elem? e.loops i ≡ none = rw ((no_loops e o).0) refl in
    absurd (ground arith)

Over-stop :
    (i : ℕ) (s : Option Stop) (e e' : EngineState)
    → Over e
    → ((close_at i s e ≡ some e')
        ⊎ (quit_at i s e ≡ some e')
        ⊎ (read_at i s e ≡ some e')
        ⊎ (drain_at i s e ≡ some e')
        ⊎ (overrun_at i s e ≡ some e'))
    → Stays e e'
Over-stop i none e e' o h = absurd (ground arith)
Over-stop i (some (closing k)) e e' o h = (ground arith, ground arith, ground arith)
Over-stop i (some locking) e e' o h = (ground arith, ground arith, ground arith)
Over-stop i (some waiting) e e' o h = (ground arith, ground arith, ground arith)
Over-stop i (some unserved) e e' o h = absurd (ground arith)
Over-stop i (some drained) e e' o h = absurd (ground arith)
Over-stop i (some overran) e e' o h = absurd (ground arith)

stays : (v : EngineEvent) (e e' : EngineState) → Over e → engine_step v e ≡ some e' → Stays e e'
unfolding engine_step
stays call_serve e e' o h = absurd (ground (arith, o.settled, serve_called e.serve))
stays register e e' o h = Over-serve e.serve e e' o refl (inl h)
stays unlock e e' o h = Over-serve e.serve e e' o refl (inr h)
stays receive_quit e e' o h = (ground arith, ground arith, ground arith)
stays serve_return e e' o h = (ground arith, ground arith, ground arith)
stays (accept i) e e' o h = Over-loop i e e' o (inl h)
stays (spawn i) e e' o h = Over-loop i e e' o (inr (inl h))
stays (leave_loop i) e e' o h = Over-loop i e e' o (inr (inr h))
stays end_session e e' o h = absurd (ground (arith, no_loops e o))
stays call_shutdown e e' o h = (ground arith, ground arith, ground arith)
stays (close_listener i) e e' o h = Over-stop i (get_elem? e.stops i) e e' o (inl h)
stays (close_quit i) e e' o h = Over-stop i (get_elem? e.stops i) e e' o (inr (inl h))
stays (read_serving i) e e' o h = Over-stop i (get_elem? e.stops i) e e' o (inr (inr (inl h)))
stays (drain i) e e' o h = Over-stop i (get_elem? e.stops i) e e' o (inr (inr (inr (inl h))))
stays (overrun i) e e' o h = Over-stop i (get_elem? e.stops i) e e' o (inr (inr (inr (inr h))))

Over-step : (v : EngineEvent) (e e' : EngineState) → Over e → engine_step v e ≡ some e' → Over e'
Over-step v e e' o h =
    let (settled, nobody, quitting) = stays v e e' o h in
    record {
      sound = Sound-step v e e' o.sound h;
      settled = settled;
      nobody = nobody;
      quitting = quitting;
    }

drained-Over :
    (e : EngineState) (i : ℕ)
    → Sound e
    → (get_elem? e.stops i ≡ some drained) ⊎ (e.serve ≡ returned)
    → Over e
drained-Over e i s (inl at) =
    let p = All-get_elem? (StopOk e) e.stops i drained s.stops_ok at in
    record { sound = s; settled = p.1; nobody = p.2; quitting = p.0 }
drained-Over e i s (inr at) =
    let p = subst (ServeOk e) at s.serve_ok in
    record { sound = s; settled = rw at refl; nobody = p.1; quitting = p.0 }

-- Once a call of Shutdown has returned nil behind its drain, or Serve has returned, every listener
-- is closed, no accept loop and no session runs, and none ever runs again.
pub engine_run-drained :
    (n : ℕ) (vs ws : List EngineEvent) (i : ℕ) (e e' : EngineState)
    → engine_run vs (bound_engine n) ≡ some e
    → (get_elem? e.stops i ≡ some drained) ⊎ (e.serve ≡ returned)
    → engine_run ws e ≡ some e'
    → All (λ b. b ≡ false) e'.listeners × (e'.loops ≡ []) × (e'.sessions ≡ 0)
engine_run-drained n vs ws i e e' h at h' =
    let o = run_keeps Over Over-step ws e e' (drained-Over e i (Sound-run n vs e h) at) h' in
    let (loops, sessions) = no_loops e' o in
    (all_closed e'.listeners (ground (arith, (o.sound).quit_last, o.quitting)), loops, sessions)
