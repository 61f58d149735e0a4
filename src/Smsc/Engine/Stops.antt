-- ===== src/Smsc/Engine/Stops.antt =====
-- The steps of the calls of Shutdown keep the invariant.
use go_smsc_simulator.Common.{
  ℕ, suc, ◌+◌, ◌≡◌, refl, sym, subst, arith, Bool, true, false, not, List, [], ◌∷◌, ◌++◌, length,
  length-set, get_elem?, set, All-append, Option, none, some, Bool-cases, inl, inr, if◌then◌else◌,
}
use go_smsc_simulator.Smsc.Engine.{
  Serve, uncalled, registering, blocked, joining, returned, Stop, closing, locking, waiting,
  unserved, drained, overran, EngineState, is_uncalled, is_registering, moved, close_at, quit_at,
  read_at, drain_at, overrun_at, call_shutdown, engine_step,
}
use go_smsc_simulator.Smsc.Engine.Invariant.{
  is_settled, StopOk, Sound, StopOk-kept, All-kept, All-get_elem?, closed_upto, closed_upto-set,
  closed_upto-suc, guarded, moved_stops, ServeOk-kept,
}

-- A call of Shutdown moves on, while the rest stays.
pub Sound-moved : (e : EngineState) (i : ℕ) (s : Stop) → Sound e → StopOk e s → Sound (moved i s e)
Sound-moved e i s v p = record {
  counted = v.counted;
  quit_last = v.quit_last;
  serve_ok = ServeOk-kept e (moved i s e) e.serve refl (λ h. h) (λ z. z) v.serve_ok;
  served = v.served;
  stops_ok =
      moved_stops e (moved i s e) i s
        (record { upto = λ j h. h; quit = λ h. h; settled = λ h. h; nobody = λ _ z. z }) v.stops_ok
        (StopOk-kept e (moved i s e) s
          (record { upto = λ j h. h; quit = λ h. h; settled = λ h. h; nobody = λ _ z. z }) p);
  once = v.once;
  proper = v.proper;
  nonnegative = v.nonnegative;
}

abbrev without : EngineState → List Bool → EngineState
without e ls = record e { listeners = ls }

-- A listener is closed.
pub Sound-closed : (e : EngineState) (k : ℕ) → Sound e → Sound (without e (set e.listeners k false))
Sound-closed e k v =
    let n = length-set e.listeners k false in
    let closes = closed_upto-set (length e.listeners) k e.listeners in
    record {
      counted = v.counted;
      quit_last = rw n (ground (arith, closes));
      serve_ok =
          ServeOk-kept e (without e (set e.listeners k false)) e.serve (sym n) (λ h. h) (λ z. z)
            v.serve_ok;
      served = v.served;
      stops_ok =
          All-kept e (without e (set e.listeners k false)) e.stops
            (record {
              upto = λ j. closed_upto-set j k e.listeners;
              quit = λ h. h;
              settled = λ h. h;
              nobody = λ _ z. z;
            })
            v.stops_ok;
      once = v.once;
      proper = v.proper;
      nonnegative = v.nonnegative;
    }

pub Sound-close_at :
    (i : ℕ) (o : Option Stop) (e e' : EngineState)
    → Sound e
    → get_elem? e.stops i ≡ o
    → close_at i o e ≡ some e'
    → Sound e'
Sound-close_at i none e e' v at h = absurd (cc h)
Sound-close_at i (some locking) e e' v at h = absurd (cc h)
Sound-close_at i (some waiting) e e' v at h = absurd (cc h)
Sound-close_at i (some unserved) e e' v at h = absurd (cc h)
Sound-close_at i (some drained) e e' v at h = absurd (cc h)
Sound-close_at i (some overran) e e' v at h = absurd (cc h)
Sound-close_at i (some (closing k)) e e' v at h = guarded Sound _ _ e' h (λ b.
    let p = All-get_elem? (StopOk e) e.stops i (closing k) v.stops_ok at in
    Sound-moved (without e (set e.listeners k false)) i (closing (k + 1)) (Sound-closed e k v) (
      subst (λ j. closed_upto j (set e.listeners k false) ≡ true) {x = suc k} (omega arith)
        (closed_upto-suc k e.listeners p (ground arith))))

abbrev quitting : EngineState → ℕ → EngineState
quitting e c = record e { quit = true; quit_closes = c }

abbrev called : EngineState → EngineState
called e = record e { stops = e.stops ++ closing 0 ∷ [] }

free_settled :
    (s : Serve) → not (is_uncalled s) ≡ true → not (is_registering s) ≡ true → is_settled s ≡ true
free_settled uncalled h k = h
free_settled (registering j) h k = k
free_settled blocked h k = refl
free_settled joining h k = refl
free_settled returned h k = refl

-- `quit` is closed.
pub Sound-quit :
    (e : EngineState) (c : ℕ)
    → Sound e
    → closed_upto (length e.listeners) e.listeners ≡ true
    → c ≡ 1
    → Sound (quitting e c)
Sound-quit e c v p one = record {
  counted = v.counted;
  quit_last = p;
  serve_ok = ServeOk-kept e (quitting e c) e.serve refl (λ _. refl) (λ z. z) v.serve_ok;
  served = v.served;
  stops_ok =
      All-kept e (quitting e c) e.stops
        (record { upto = λ j h. h; quit = λ _. refl; settled = λ h. h; nobody = λ _ z. z })
        v.stops_ok;
  once = one;
  proper = v.proper;
  nonnegative = v.nonnegative;
}

pub Sound-quit_at :
    (i : ℕ) (o : Option Stop) (e e' : EngineState)
    → Sound e
    → get_elem? e.stops i ≡ o
    → quit_at i o e ≡ some e'
    → Sound e'
Sound-quit_at i none e e' v at h = absurd (cc h)
Sound-quit_at i (some locking) e e' v at h = absurd (cc h)
Sound-quit_at i (some waiting) e e' v at h = absurd (cc h)
Sound-quit_at i (some unserved) e e' v at h = absurd (cc h)
Sound-quit_at i (some drained) e e' v at h = absurd (cc h)
Sound-quit_at i (some overran) e e' v at h = absurd (cc h)
Sound-quit_at i (some (closing k)) e e' v at h = guarded Sound _ _ e' h (λ b.
    let p = All-get_elem? (StopOk e) e.stops i (closing k) v.stops_ok at in
    let c = if e.quit then e.quit_closes else e.quit_closes + 1 in
    Sound-moved (quitting e c) i locking
      (Sound-quit e c v (subst (λ j. closed_upto j e.listeners ≡ true) (ground arith) p)
        (ground (arith, v.once)))
      refl)

pub Sound-read_at :
    (i : ℕ) (o : Option Stop) (e e' : EngineState)
    → Sound e
    → get_elem? e.stops i ≡ o
    → read_at i o e ≡ some e'
    → Sound e'
Sound-read_at i none e e' v at h = absurd (cc h)
Sound-read_at i (some (closing k)) e e' v at h = absurd (cc h)
Sound-read_at i (some waiting) e e' v at h = absurd (cc h)
Sound-read_at i (some unserved) e e' v at h = absurd (cc h)
Sound-read_at i (some drained) e e' v at h = absurd (cc h)
Sound-read_at i (some overran) e e' v at h = absurd (cc h)
Sound-read_at i (some locking) e e' v at h = guarded Sound _ _ e' h (λ b.
    let p = All-get_elem? (StopOk e) e.stops i locking v.stops_ok at in
    Sound-moved e i (if e.serving then waiting else unserved) v (elim (Bool-cases e.serving) [
      | inl s ↦ rw s (p, free_settled e.serve (cc (v.served, s)) b)
      | inr s ↦ rw s p
    ]))

pub Sound-drain_at :
    (i : ℕ) (o : Option Stop) (e e' : EngineState)
    → Sound e
    → get_elem? e.stops i ≡ o
    → drain_at i o e ≡ some e'
    → Sound e'
Sound-drain_at i none e e' v at h = absurd (cc h)
Sound-drain_at i (some (closing k)) e e' v at h = absurd (cc h)
Sound-drain_at i (some locking) e e' v at h = absurd (cc h)
Sound-drain_at i (some unserved) e e' v at h = absurd (cc h)
Sound-drain_at i (some drained) e e' v at h = absurd (cc h)
Sound-drain_at i (some overran) e e' v at h = absurd (cc h)
Sound-drain_at i (some waiting) e e' v at h = guarded Sound _ _ e' h (λ b.
    let p = All-get_elem? (StopOk e) e.stops i waiting v.stops_ok at in
    Sound-moved e i drained v (p.0, p.1, ground arith))

pub Sound-overrun_at :
    (i : ℕ) (o : Option Stop) (e e' : EngineState)
    → Sound e
    → get_elem? e.stops i ≡ o
    → overrun_at i o e ≡ some e'
    → Sound e'
Sound-overrun_at i none e e' v at h = absurd (cc h)
Sound-overrun_at i (some (closing k)) e e' v at h = absurd (cc h)
Sound-overrun_at i (some locking) e e' v at h = absurd (cc h)
Sound-overrun_at i (some unserved) e e' v at h = absurd (cc h)
Sound-overrun_at i (some drained) e e' v at h = absurd (cc h)
Sound-overrun_at i (some overran) e e' v at h = absurd (cc h)
Sound-overrun_at i (some waiting) e e' v at h =
    let p = All-get_elem? (StopOk e) e.stops i waiting v.stops_ok at in
    subst Sound (cc h) (Sound-moved e i overran v p)

pub Sound-call_shutdown :
    (e e' : EngineState) → Sound e → engine_step call_shutdown e ≡ some e' → Sound e'
unfolding engine_step
Sound-call_shutdown e e' v h = subst Sound (cc h) (record {
  counted = v.counted;
  quit_last = v.quit_last;
  serve_ok = ServeOk-kept e (called e) e.serve refl (λ h. h) (λ z. z) v.serve_ok;
  served = v.served;
  stops_ok =
      All-append (StopOk (called e)) e.stops (closing 0 ∷ [])
        (All-kept e (called e) e.stops
          (record { upto = λ j h. h; quit = λ h. h; settled = λ h. h; nobody = λ _ z. z })
          v.stops_ok)
        (refl, tt);
  once = v.once;
  proper = v.proper;
  nonnegative = v.nonnegative;
})
