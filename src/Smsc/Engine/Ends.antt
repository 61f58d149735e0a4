-- ===== src/Smsc/Engine/Ends.antt =====
-- From the close of `quit` on, what Serve, Shutdown, the loops and the sessions do comes to an end.
use go_smsc_simulator.Common.{
  ℕ, zero, suc, ◌+◌, ◌-◌, ◌≤◌, ◌<◌, ◌≡◌, ◌≢◌, refl, arith, ltb, ◌==◌, Bool, true, false, List, [],
  ◌∷◌, length, get_elem?, set, All, some, Bool-cases, List-cases, inl, inr, ◌⊎◌, if◌then◌else◌,
}
use go_smsc_simulator.Smsc.Engine.{
  Loop, Serve, uncalled, registering, blocked, joining, returned, Stop, closing, locking, waiting,
  unserved, drained, overran, EngineState, moved, is_registering, remove_at, add_one, done_one,
  EngineEvent, register, unlock, receive_quit, serve_return, spawn, leave_loop, end_session,
  close_listener, close_quit, read_serving, drain, engine_step, engine_run, bound_engine,
}
use go_smsc_simulator.Smsc.Engine.Invariant.{Sound, ServeOk, closed_upto, StopOk, All-get_elem?}
use go_smsc_simulator.Smsc.Engine.Drain.{Sound-run}
use go_smsc_simulator.Smsc.Engine.Work.{is_call, left, fewer}

-- Some goroutine of the engine can act.
abbrev pub CanAct : EngineState → Type 0
CanAct e =
    (v : EngineEvent) × (e' : EngineState) × (is_call v ≡ false) × (engine_step v e ≡ some e')

-- A call of Shutdown has returned.
abbrev pub is_done : Stop → Bool
is_done (closing k) = false
is_done locking = false
is_done waiting = false
is_done _ = true

abbrev pub is_through : Serve → Bool
is_through uncalled = true
is_through returned = true
is_through _ = false

loops_act : (e : EngineState) (l : Loop) (ls : List Loop) → e.loops ≡ l ∷ ls → CanAct e
unfolding engine_step
loops_act e l ls h = elim (Bool-cases l.connected) [
  | inl c ↦ (
    spawn 0,
    record (add_one e) {
      loops = set e.loops 0 (record l { connected = false });
      sessions = e.sessions + 1;
    },
    refl,
    ground arith,
  )
  | inr c ↦ (leave_loop 0, record (done_one e) { loops = remove_at 0 e.loops }, refl, ground arith)
]

sessions_act : (e : EngineState) → e.sessions ≢ 0 → CanAct e
unfolding engine_step
sessions_act e h =
    (end_session, record (done_one e) { sessions = e.sessions - 1 }, refl, ground arith)

serve_acts :
    (s : Serve) (e : EngineState)
    → ServeOk e s
    → e.serve ≡ s
    → e.counter ≡ 0
    → e.quit ≡ true
    → (is_through s ≡ true) ⊎ CanAct e
unfolding engine_step
serve_acts uncalled e v at z q = inl refl
serve_acts (registering k) e v at z q = elim (Bool-cases (ltb k (length e.listeners))) [
  | inl more ↦ inr (
    register,
    record (add_one e) {
      loops = record { listener = k; connected = false } ∷ e.loops;
      serve = registering (k + 1);
    },
    refl,
    ground arith,
  )
  | inr last ↦ inr (unlock, record e { serve = blocked }, refl, ground arith)
]
serve_acts blocked e v at z q = inr (receive_quit, record e { serve = joining }, refl, ground arith)
serve_acts joining e v at z q =
    inr (serve_return, record e { serve = returned }, refl, ground arith)
serve_acts returned e v at z q = inl refl

closed_upto-le : (k : ℕ) (ls : List Bool) → closed_upto k ls ≡ true → k ≤ length ls
closed_upto-le zero ls h = omega arith
closed_upto-le (suc k) [] h = absurd (cc h)
closed_upto-le (suc k) (b ∷ ls) h = ground (arith, closed_upto-le k ls)

through_free : (s : Serve) → is_through s ≡ true → is_registering s ≡ false
through_free (registering k) h = absurd (cc h)
through_free uncalled h = refl
through_free blocked h = refl
through_free joining h = refl
through_free returned h = refl

stop_acts :
    (e : EngineState) (i : ℕ) (s : Stop)
    → StopOk e s
    → is_registering e.serve ≡ false
    → e.counter ≡ 0
    → get_elem? e.stops i ≡ some s
    → (is_done s ≡ true) ⊎ CanAct e
unfolding engine_step
stop_acts e i (closing k) p free z at = elim (Bool-cases (ltb k (length e.listeners))) [
  | inl more ↦ inr (
    close_listener i,
    moved i (closing (k + 1)) (record e { listeners = set e.listeners k false }),
    refl,
    ground arith,
  )
  | inr last ↦
      let fits = closed_upto-le k e.listeners p in
      inr (
        close_quit i,
        moved i locking (record e {
          quit = true;
          quit_closes = if e.quit then e.quit_closes else e.quit_closes + 1;
        }),
        refl,
        ground arith,
      )
]
stop_acts e i locking p free z at =
    inr (read_serving i, moved i (if e.serving then waiting else unserved) e, refl, ground arith)
stop_acts e i waiting p free z at = inr (drain i, moved i drained e, refl, ground arith)
stop_acts e i unserved p free z at = inl refl
stop_acts e i drained p free z at = inl refl
stop_acts e i overran p free z at = inl refl

all_or :
    {X : Type 0} (ss : List Stop)
    → ((i : ℕ) (s : Stop) → get_elem? ss i ≡ some s → (is_done s ≡ true) ⊎ X)
    → All (λ s. is_done s ≡ true) ss ⊎ X
all_or [] f = inl tt
all_or (s ∷ ss) f = elim (f 0 s refl) [
  | inr x ↦ inr x
  | inl d ↦ elim (all_or ss (λ i t. f (suc i) t)) [ inr x ↦ inr x | inl ds ↦ inl (d, ds) ]
]

-- Everything that was called has returned, and nothing runs.
abbrev pub IsFinished : EngineState → Type 0
IsFinished e =
    (e.loops ≡ [])
    × (e.sessions ≡ 0)
    × (is_through e.serve ≡ true)
    × All (λ s. is_done s ≡ true) e.stops

calls_act :
    (e : EngineState)
    → Sound e
    → e.quit ≡ true
    → e.loops ≡ []
    → e.sessions ≡ 0
    → IsFinished e ⊎ CanAct e
calls_act e v q loops sessions =
    let c = v.counted in
    let z : e.counter ≡ 0 = ground (arith, c) in
    elim (serve_acts e.serve e v.serve_ok refl z q) [
      | inr act ↦ inr act
      | inl t ↦
          elim (all_or {X = CanAct e} e.stops (λ i s at.
            stop_acts e i s (All-get_elem? (StopOk e) e.stops i s v.stops_ok at)
              (through_free e.serve t) z at)) [
                | inr act ↦ inr act
                | inl d ↦ inl (loops, sessions, t, d)
              ]
    ]

acts : (e : EngineState) → Sound e → e.quit ≡ true → IsFinished e ⊎ CanAct e
acts e v q = elim (List-cases e.loops) [
  | inr (l, ls, h) ↦ inr (loops_act e l ls h)
  | inl loops ↦ elim (Bool-cases (e.sessions == 0)) [
    | inr more ↦ inr (sessions_act e (ground arith))
    | inl sessions ↦ calls_act e v q loops (ground arith)
  ]
]

-- After `quit` is closed, whatever has been done before: an engine is never stuck before every
-- accept loop and session has ended and every call of Serve and Shutdown has returned; and each of
-- its actions, other than a further call, leaves fewer before it.
pub engine_run-ends :
    (n : ℕ) (vs : List EngineEvent) (e : EngineState)
    → engine_run vs (bound_engine n) ≡ some e
    → e.quit ≡ true
    → (IsFinished e ⊎ CanAct e)
      × ((v : EngineEvent) (e' : EngineState)
          → is_call v ≡ false
          → engine_step v e ≡ some e'
          → left e' < left e)
engine_run-ends n vs e h q =
    let v = Sound-run n vs e h in
    (acts e v q, λ x e' nc st. fewer x e e' (ground (arith, v.quit_last, q)) nc st)
