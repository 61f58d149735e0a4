-- ===== src/Smsc/Engine/Waits.antt =====
-- The steps of Serve, of the accept loops and of the sessions keep the invariant.
use go_smsc_simulator.Common.{
  ℕ, ◌+◌, ◌-◌, ◌<◌, ◌≡◌, refl, arith, Bool, true, false, not, List, ◌∷◌, length, length-set,
  get_elem?, set, Option, none, some,
}
use go_smsc_simulator.Smsc.Engine.{
  Loop, Serve, uncalled, registering, blocked, joining, returned, EngineState, is_uncalled,
  any_waiting, remove_at, add_one, done_one, register_from, unlock_from, accept_at, spawn_at,
  leave_at, is_joining, call_serve, receive_quit, serve_return, end_session, engine_step,
}
use go_smsc_simulator.Smsc.Engine.Invariant.{
  is_settled, ServeOk, Sound, All-kept, get_elem?-lt, length-remove_at, any_waiting-none, guarded,
  ServeOk-kept,
}

running :
    (e : EngineState) (i : ℕ) (l : Loop) → Sound e → get_elem? e.loops i ≡ some l → 0 < e.counter
running e i l v h = omega (arith, get_elem?-lt e.loops i l h, v.counted)

pub Sound-register :
    (s : Serve) (e e' : EngineState)
    → Sound e
    → e.serve ≡ s
    → register_from s e ≡ some e'
    → Sound e'
unfolding add_one
Sound-register uncalled e e' v at h = absurd (cc h)
Sound-register blocked e e' v at h = absurd (cc h)
Sound-register joining e e' v at h = absurd (cc h)
Sound-register returned e e' v at h = absurd (cc h)
Sound-register (registering k) e e' v at h = guarded Sound _ _ e' h (λ b.
    let none_waits : any_waiting e.stops ≡ false =
      any_waiting-none e e.stops v.stops_ok (rw at refl) in
    record {
      counted = omega (arith, v.counted);
      quit_last = v.quit_last;
      serve_ok = ground arith;
      served = ground arith;
      stops_ok =
          All-kept e
            (record (add_one e) {
              loops = record { listener = k; connected = false } ∷ e.loops;
              serve = registering (k + 1);
            })
            e.stops
            (record {
              upto = λ j h. h;
              quit = λ h. h;
              settled = λ h. absurd (ground arith);
              nobody = λ h. absurd (ground arith);
            })
            v.stops_ok;
      once = v.once;
      proper = ground arith;
      nonnegative = v.nonnegative;
    })

abbrev recounted : EngineState → List Loop → ℕ → ℕ → Bool → Bool → EngineState
recounted e ls n c m g = record e {
  loops = ls;
  sessions = n;
  counter = c;
  misused = m;
  negative = g;
}

abbrev at_serve : EngineState → Serve → Bool → EngineState
at_serve e s b = record e { serve = s; serving = b }

unsettled : (s : Serve) → is_uncalled s ≡ true → is_settled s ≡ false
unsettled uncalled h = refl
unsettled (registering k) h = refl
unsettled blocked h = absurd (cc h)
unsettled joining h = absurd (cc h)
unsettled returned h = absurd (cc h)

joining_quit : (e : EngineState) (s : Serve) → ServeOk e s → is_joining s ≡ true → e.quit ≡ true
joining_quit e joining v h = v
joining_quit e uncalled v h = absurd (cc h)
joining_quit e (registering k) v h = absurd (cc h)
joining_quit e blocked v h = absurd (cc h)
joining_quit e returned v h = absurd (cc h)

-- A step of an accept loop or a session, which leaves the counter right and at zero where it was.
pub Sound-recounted :
    (e : EngineState) (ls : List Loop) (n c : ℕ) (m g : Bool)
    → Sound e
    → c ≡ length ls + n
    → (e.counter ≡ 0 → c ≡ 0)
    → m ≡ false
    → g ≡ false
    → Sound (recounted e ls n c m g)
Sound-recounted e ls n c m g v counts zero_stays proper nonnegative = record {
  counted = counts;
  quit_last = v.quit_last;
  serve_ok = ServeOk-kept e (recounted e ls n c m g) e.serve refl (λ h. h) zero_stays v.serve_ok;
  served = v.served;
  stops_ok =
      All-kept e (recounted e ls n c m g) e.stops
        (record { upto = λ j h. h; quit = λ h. h; settled = λ h. h; nobody = λ _. zero_stays })
        v.stops_ok;
  once = v.once;
  proper = proper;
  nonnegative = nonnegative;
}

pub Sound-accept :
    (i : ℕ) (o : Option Loop) (e e' : EngineState) → Sound e → accept_at i o e ≡ some e' → Sound e'
Sound-accept i none e e' v h = absurd (cc h)
Sound-accept i (some l) e e' v h = guarded Sound _ _ e' h (λ b.
    Sound-recounted e (set e.loops i (record l { connected = true })) e.sessions e.counter e.misused
      e.negative v (omega (arith, v.counted, length-set e.loops i (record l { connected = true })))
      (λ z. z) v.proper v.nonnegative)

pub Sound-spawn :
    (i : ℕ) (o : Option Loop) (e e' : EngineState)
    → Sound e
    → get_elem? e.loops i ≡ o
    → spawn_at i o e ≡ some e'
    → Sound e'
unfolding add_one
Sound-spawn i none e e' v at h = absurd (cc h)
Sound-spawn i (some l) e e' v at h = guarded Sound _ _ e' h (λ b.
    let p = running e i l v at in
    Sound-recounted e (set e.loops i (record l { connected = false })) (e.sessions + 1)
      (e.counter + 1) _ e.negative v
      (omega (arith, v.counted, length-set e.loops i (record l { connected = false })))
      (λ z. absurd (omega arith)) (ground (arith, v.proper)) v.nonnegative)

pub Sound-leave_loop :
    (i : ℕ) (o : Option Loop) (e e' : EngineState)
    → Sound e
    → get_elem? e.loops i ≡ o
    → leave_at i o e ≡ some e'
    → Sound e'
unfolding done_one
Sound-leave_loop i none e e' v at h = absurd (cc h)
Sound-leave_loop i (some l) e e' v at h = guarded Sound _ _ e' h (λ b.
    let p = running e i l v at in
    let shorter = length-remove_at e.loops i (get_elem?-lt e.loops i l at) in
    Sound-recounted e (remove_at i e.loops) e.sessions (e.counter - 1) e.misused _ v
      (omega (arith, v.counted)) (λ z. omega arith) v.proper (ground (arith, v.nonnegative)))

pub Sound-end_session :
    (e e' : EngineState) → Sound e → engine_step end_session e ≡ some e' → Sound e'
unfolding engine_step done_one
Sound-end_session e e' v h = guarded Sound _ _ e' h (λ b.
    Sound-recounted e e.loops (e.sessions - 1) (e.counter - 1) e.misused _ v
      (ground (arith, v.counted)) (λ z. omega arith) v.proper
      (ground (arith, v.nonnegative, v.counted)))

-- Serve moves on, while the listeners, `quit` and the counter stay.
pub Sound-served :
    (e : EngineState) (s : Serve) (b : Bool)
    → Sound e
    → ServeOk e s
    → b ≡ not (is_uncalled s)
    → (is_settled e.serve ≡ true → is_settled s ≡ true)
    → Sound (at_serve e s b)
Sound-served e s b v fits serves settles = record {
  counted = v.counted;
  quit_last = v.quit_last;
  serve_ok = ServeOk-kept e (at_serve e s b) s refl (λ h. h) (λ z. z) fits;
  served = serves;
  stops_ok =
      All-kept e (at_serve e s b) e.stops
        (record { upto = λ j h. h; quit = λ h. h; settled = settles; nobody = λ _ z. z })
        v.stops_ok;
  once = v.once;
  proper = v.proper;
  nonnegative = v.nonnegative;
}

pub Sound-call_serve :
    (e e' : EngineState) → Sound e → engine_step call_serve e ≡ some e' → Sound e'
unfolding engine_step
Sound-call_serve e e' v h =
    guarded Sound (is_uncalled e.serve) (at_serve e (registering 0) true) e' h (λ b.
      Sound-served e (registering 0) true v (omega arith) refl
        (λ s. absurd (cc (s, unsettled e.serve b))))

pub Sound-unlock :
    (s : Serve) (e e' : EngineState) → Sound e → e.serve ≡ s → unlock_from s e ≡ some e' → Sound e'
Sound-unlock uncalled e e' v at h = absurd (cc h)
Sound-unlock blocked e e' v at h = absurd (cc h)
Sound-unlock joining e e' v at h = absurd (cc h)
Sound-unlock returned e e' v at h = absurd (cc h)
Sound-unlock (registering k) e e' v at h =
    guarded Sound _ _ e' h
      (λ b. Sound-served e blocked e.serving v tt (ground (arith, v.served)) (λ s. refl))

pub Sound-receive_quit :
    (e e' : EngineState) → Sound e → engine_step receive_quit e ≡ some e' → Sound e'
unfolding engine_step
Sound-receive_quit e e' v h =
    guarded Sound _ _ e' h (λ b.
      Sound-served e joining e.serving v (ground arith) (ground (arith, v.served)) (λ s. refl))

pub Sound-serve_return :
    (e e' : EngineState) → Sound e → engine_step serve_return e ≡ some e' → Sound e'
unfolding engine_step
Sound-serve_return e e' v h = guarded Sound _ _ e' h (λ b.
    Sound-served e returned e.serving v
      (joining_quit e e.serve v.serve_ok (ground arith), ground arith) (ground (arith, v.served))
      (λ s. refl))
