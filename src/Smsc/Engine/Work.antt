-- ===== src/Smsc/Engine/Work.antt =====
-- internal/smsc/engine.go: how much is left to do once quit is closed, and that each step lessens it.
use go_smsc_simulator.Common.{
  some_inj, ℕ, zero, suc, ◌+◌, ◌-◌, ◌*◌, ◌<◌, ◌≡◌, refl, ap, arith, Bool, true, false, List, [],
  ◌∷◌, length, length-set, get_elem?, set, Option, none, some, inl, inr, ◌⊎◌, if◌then◌else◌,
}
use go_smsc_simulator.Smsc.Engine.{
  Loop, Serve, uncalled, registering, blocked, joining, returned, Stop, closing, locking, waiting,
  unserved, drained, overran, EngineState, is_blocked, is_joining, is_open_at, remove_at, add_one,
  done_one, register_from, unlock_from, accept_at, spawn_at, leave_at, close_at, quit_at, read_at,
  drain_at, overrun_at, EngineEvent, call_serve, register, unlock, receive_quit, serve_return,
  accept, spawn, leave_loop, end_session, call_shutdown, close_listener, close_quit, read_serving,
  drain, overrun, engine_step,
}
use go_smsc_simulator.Smsc.Engine.Invariant.{guarded, closed_upto}

abbrev pub is_call : EngineEvent → Bool
is_call call_serve = true
is_call call_shutdown = true
is_call _ = false

abbrev pub total : {A : Type 0} → (A → ℕ) → List A → ℕ
total w [] = 0
total w (x ∷ xs) = w x + total w xs

-- The actions that each goroutine has before it.
abbrev serve_left : ℕ → Serve → ℕ
serve_left n uncalled = 0
serve_left n (registering k) = (n - k) * 2 + 3
serve_left n blocked = 2
serve_left n joining = 1
serve_left n returned = 0

abbrev loop_left : Loop → ℕ
loop_left l = if l.connected then 3 else 1

abbrev stop_left : ℕ → Stop → ℕ
stop_left n (closing k) = n - k + 3
stop_left n locking = 2
stop_left n waiting = 1
stop_left n unserved = 0
stop_left n drained = 0
stop_left n overran = 0

abbrev pub left : EngineState → ℕ
left e =
    serve_left (length e.listeners) e.serve
    + total loop_left e.loops
    + e.sessions
    + total (stop_left (length e.listeners)) e.stops

total-set :
    {A : Type 0} (w : A → ℕ) (xs : List A) (i : ℕ) (x v : A)
    → get_elem? xs i ≡ some x
    → total w (set xs i v) + w x ≡ total w xs + w v
total-set w [] i x v h = absurd (cc h)
total-set w (y ∷ xs) zero x v h = omega (arith, ap w (some_inj y x h))
total-set w (y ∷ xs) (suc i) x v h = omega (arith, total-set w xs i x v h)

total-remove_at :
    {A : Type 0} (w : A → ℕ) (xs : List A) (i : ℕ) (x : A)
    → get_elem? xs i ≡ some x
    → total w (remove_at i xs) + w x ≡ total w xs
total-remove_at w [] i x h = absurd (cc h)
total-remove_at w (y ∷ xs) zero x h = omega (arith, ap w (some_inj y x h))
total-remove_at w (y ∷ xs) (suc i) x h = omega (arith, total-remove_at w xs i x h)

shut_at : (k : ℕ) (ls : List Bool) → closed_upto (length ls) ls ≡ true → is_open_at k ls ≡ false
shut_at k [] h = refl
shut_at zero (b ∷ ls) h = ground arith
shut_at (suc k) (b ∷ ls) h = shut_at k ls (ground arith)

fewer_serve :
    (s : Serve) (e e' : EngineState)
    → e.serve ≡ s
    → (register_from s e ≡ some e') ⊎ (unlock_from s e ≡ some e')
    → left e' < left e
unfolding add_one
fewer_serve uncalled e e' at h = absurd (ground arith)
fewer_serve (registering k) e e' at h = ground arith
fewer_serve blocked e e' at h = absurd (ground arith)
fewer_serve joining e e' at h = absurd (ground arith)
fewer_serve returned e e' at h = absurd (ground arith)

fewer_loop :
    (i : ℕ) (o : Option Loop) (e e' : EngineState)
    → closed_upto (length e.listeners) e.listeners ≡ true
    → get_elem? e.loops i ≡ o
    → (accept_at i o e ≡ some e') ⊎ (spawn_at i o e ≡ some e') ⊎ (leave_at i o e ≡ some e')
    → left e' < left e
unfolding add_one done_one
fewer_loop i none e e' c at h = absurd (ground arith)
fewer_loop i (some l) e e' c at (inl h) = absurd (ground (arith, shut_at l.listener e.listeners c))
fewer_loop i (some l) e e' c at (inr (inl h)) =
    let t = total-set loop_left e.loops i l (record l { connected = false }) at in ground arith
fewer_loop i (some l) e e' c at (inr (inr h)) =
    let t = total-remove_at loop_left e.loops i l at in ground arith

-- A call of Shutdown that moves to `s` has one action fewer before it.
fewer_moved :
    (e : EngineState) (i : ℕ) (s s' : Stop)
    → get_elem? e.stops i ≡ some s
    → stop_left (length e.listeners) s' < stop_left (length e.listeners) s
    → total (stop_left (length e.listeners)) (set e.stops i s')
      < total (stop_left (length e.listeners)) e.stops
fewer_moved e i s s' at h =
    omega (arith, total-set (stop_left (length e.listeners)) e.stops i s s' at)

fewer_stop :
    (i : ℕ) (o : Option Stop) (e e' : EngineState)
    → get_elem? e.stops i ≡ o
    → (close_at i o e ≡ some e')
      ⊎ (quit_at i o e ≡ some e')
      ⊎ (read_at i o e ≡ some e')
      ⊎ (drain_at i o e ≡ some e')
      ⊎ (overrun_at i o e ≡ some e')
    → left e' < left e
fewer_stop i none e e' at h = absurd (ground arith)
fewer_stop i (some (closing k)) e e' at (inl h) =
    guarded (λ z. left z < left e) _ _ e' h
      (λ b.
        let m = fewer_moved e i (closing k) (closing (k + 1)) at (ground arith) in
        rw (length-set e.listeners k false) (omega arith))
fewer_stop i (some (closing k)) e e' at (inr h) =
    let m = fewer_moved e i (closing k) locking at (omega arith) in ground arith
fewer_stop i (some locking) e e' at h =
    let m = fewer_moved e i locking waiting at (omega arith) in
    let m' = fewer_moved e i locking unserved at (omega arith) in ground arith
fewer_stop i (some waiting) e e' at h =
    let m = fewer_moved e i waiting drained at (omega arith) in
    let m' = fewer_moved e i waiting overran at (omega arith) in ground arith
fewer_stop i (some unserved) e e' at h = absurd (ground arith)
fewer_stop i (some drained) e e' at h = absurd (ground arith)
fewer_stop i (some overran) e e' at h = absurd (ground arith)

blocked_left : (n : ℕ) (s : Serve) → is_blocked s ≡ true → serve_left n s ≡ 2
blocked_left n blocked h = refl
blocked_left n uncalled h = absurd (cc h)
blocked_left n (registering k) h = absurd (cc h)
blocked_left n joining h = absurd (cc h)
blocked_left n returned h = absurd (cc h)

joining_left : (n : ℕ) (s : Serve) → is_joining s ≡ true → serve_left n s ≡ 1
joining_left n joining h = refl
joining_left n uncalled h = absurd (cc h)
joining_left n (registering k) h = absurd (cc h)
joining_left n blocked h = absurd (cc h)
joining_left n returned h = absurd (cc h)

pub fewer :
    (v : EngineEvent) (e e' : EngineState)
    → closed_upto (length e.listeners) e.listeners ≡ true
    → is_call v ≡ false
    → engine_step v e ≡ some e'
    → left e' < left e
unfolding engine_step done_one
fewer call_serve e e' c nc h = absurd (cc nc)
fewer call_shutdown e e' c nc h = absurd (cc nc)
fewer register e e' c nc h = fewer_serve e.serve e e' refl (inl h)
fewer unlock e e' c nc h = fewer_serve e.serve e e' refl (inr h)
fewer receive_quit e e' c nc h = let b = blocked_left (length e.listeners) e.serve in ground arith
fewer serve_return e e' c nc h = let b = joining_left (length e.listeners) e.serve in ground arith
fewer (accept i) e e' c nc h = fewer_loop i (get_elem? e.loops i) e e' c refl (inl h)
fewer (spawn i) e e' c nc h = fewer_loop i (get_elem? e.loops i) e e' c refl (inr (inl h))
fewer (leave_loop i) e e' c nc h = fewer_loop i (get_elem? e.loops i) e e' c refl (inr (inr h))
fewer end_session e e' c nc h = ground arith
fewer (close_listener i) e e' c nc h = fewer_stop i (get_elem? e.stops i) e e' refl (inl h)
fewer (close_quit i) e e' c nc h = fewer_stop i (get_elem? e.stops i) e e' refl (inr (inl h))
fewer (read_serving i) e e' c nc h =
    fewer_stop i (get_elem? e.stops i) e e' refl (inr (inr (inl h)))
fewer (drain i) e e' c nc h = fewer_stop i (get_elem? e.stops i) e e' refl (inr (inr (inr (inl h))))
fewer (overrun i) e e' c nc h =
    fewer_stop i (get_elem? e.stops i) e e' refl (inr (inr (inr (inr h))))
