-- ===== src/Smsc/Create.antt =====
-- internal/smsc/virtualsmsc.go and session.go: a new virtual SMSC with its engines, and a new
-- session on it. The sockets, the loggers and the limits of time are not part of the state.
use go_smsc_simulator.Common.{
  ℕ, ◌≡◌, refl, arith, true, false, List, [], ◌∷◌, Option, none, some, All, Option-cases,
  bytes_eq_refl, bytes_eq→eq, ap, subst, sym, Bool-cases, inl, inr,
}
use go_smsc_simulator.Config.Enums.{
  Profile, healthy, flaky_carrier, throttling_carrier, dead_carrier, slow_carrier,
  throughput_capped, other_profile, profile_eq, other_distribution,
}
use go_smsc_simulator.Config.Schema.{
  VirtualSmscConfig, ScenarioConfig, ScheduledTransition, LatencyParams,
}
use go_smsc_simulator.Scenario.Engine.{Engine, new}
use go_smsc_simulator.Schedule.{empty}
use go_smsc_simulator.Recorder
use go_smsc_simulator.Smsc.Session.{open_state, VirtualSmsc, World, lookup_engine}

-- Go's zero value of `LatencyParams`.
abbrev pub no_latency_params : LatencyParams
no_latency_params = record {
  ms = none;
  min_ms = none;
  max_ms = none;
  mean_ms = none;
  stddev_ms = none;
  base_ms = none;
  spike_ms = none;
  interval_ticks = none;
}

profile_eq_refl : (p : Profile) → profile_eq p p ≡ true
unfolding profile_eq
profile_eq_refl healthy = refl
profile_eq_refl flaky_carrier = refl
profile_eq_refl throttling_carrier = refl
profile_eq_refl dead_carrier = refl
profile_eq_refl slow_carrier = refl
profile_eq_refl throughput_capped = refl
profile_eq_refl (other_profile s) = bytes_eq_refl s

profile_eq→eq : (p q : Profile) → profile_eq p q ≡ true → p ≡ q
unfolding profile_eq
profile_eq→eq healthy q h = ground arith
profile_eq→eq flaky_carrier q h = ground arith
profile_eq→eq throttling_carrier q h = ground arith
profile_eq→eq dead_carrier q h = ground arith
profile_eq→eq slow_carrier q h = ground arith
profile_eq→eq throughput_capped q h = ground arith
profile_eq→eq (other_profile s) (other_profile t) h = ap other_profile (bytes_eq→eq s t h)
profile_eq→eq (other_profile s) healthy h = cc
profile_eq→eq (other_profile s) flaky_carrier h = cc
profile_eq→eq (other_profile s) throttling_carrier h = cc
profile_eq→eq (other_profile s) dead_carrier h = cc
profile_eq→eq (other_profile s) slow_carrier h = cc
profile_eq→eq (other_profile s) throughput_capped h = cc

module _ {F : Type 0} where
  -- `config.ScenarioConfig{Profile: …}`
  abbrev pub bare : Profile → ScenarioConfig F
  bare p = record {
    profile = p;
    params = record {
      success_rate = none;
      error_mix = none;
      disconnect_interval_ticks = none;
      throughput_cap_per_sec = none;
      error_code = none;
      mode = none;
    };
    latency = record { distribution = other_distribution []; params = no_latency_params };
    dlr = none;
    protocol_edge_cases_enabled = false;
    protocol_edge_cases = none;
  }

  -- The loop over the transitions. A map's write is an entry that is looked up from then on.
  unfoldable pub add_engines :
      Option ℕ → List ScheduledTransition → List (Profile × Engine F) → List (Profile × Engine F)
  add_engines limit [] es = es
  add_engines limit (t ∷ ts) es =
      let skipped = add_engines limit ts es in
      let built = add_engines limit ts ((t.to_profile, new (bare t.to_profile) limit) ∷ es) in
      elim (lookup_engine t.to_profile es) [ none ↦ built | some e ↦ skipped ]

  unfoldable pub build_engines : VirtualSmscConfig F → Engine F → List (Profile × Engine F)
  unfolding add_engines
  build_engines cfg initial =
      add_engines cfg.throughput_limit_per_sec cfg.scheduled_transitions
        ((cfg.scenario.profile, initial) ∷ [])

  unfoldable pub new_virtual_smsc : VirtualSmscConfig F → VirtualSmsc F
  unfolding build_engines
  new_virtual_smsc cfg =
      let initial = new cfg.scenario cfg.throughput_limit_per_sec in
      record {
        cfg = cfg;
        recorder = Recorder.new cfg.pdu_buffer_size;
        scenario = initial;
        engines = build_engines cfg initial;
        binds = [];
        active_profile = cfg.scenario.profile;
        logical_clock = 0;
        bind_seq = 0;
      }

  unfoldable pub new_session : {S : Type 0} → VirtualSmsc F → World S F
  new_session v = record {
    session = record {
      id = 0;
      state = open_state;
      bind_type = [];
      can_submit = false;
      can_receive = false;
      system_id = [];
      per_bind_clock = 0;
      scenario_state = none;
      current_engine = none;
      transitions = [];
      transition_cursor = 0;
      disconnects = [];
      disconnect_cursor = 0;
      sched = empty;
      channels = 0;
      close_reason = none;
      pdus_read = 0;
    };
    smsc = v;
    out = [];
  }

  -- The engine that is built for a transition shadows no other.
  found_behind :
      (q p : Profile) (x : Engine F) (es : List (Profile × Engine F)) (e : Engine F)
      → lookup_engine q es ≡ none
      → lookup_engine p es ≡ some e
      → lookup_engine p ((q, x) ∷ es) ≡ some e
  unfolding lookup_engine
  found_behind q p x es e miss hit = elim (Bool-cases (profile_eq q p)) [
    | inl same ↦ let eq = profile_eq→eq q p same in cc (rw eq at miss)
    | inr other ↦ ground (arith, other)
  ]

  -- An engine that is found stays found.
  kept_engine :
      (limit : Option ℕ) (ts : List ScheduledTransition) (es : List (Profile × Engine F))
      (p : Profile) (e : Engine F)
      → lookup_engine p es ≡ some e
      → lookup_engine p (add_engines limit ts es) ≡ some e
  unfolding add_engines
  kept_engine limit [] es p e h = h
  kept_engine limit (t ∷ ts) es p e h = elim (Option-cases (lookup_engine t.to_profile es)) [
    | inl miss ↦
        rw (miss, add_engines)
          (kept_engine limit ts _ p e (found_behind t.to_profile p _ es e miss h))
    | inr (x, hit) ↦ rw (hit, add_engines) (kept_engine limit ts es p e h)
  ]

  found_front :
      (p : Profile) (x : Engine F) (es : List (Profile × Engine F))
      → lookup_engine p ((p, x) ∷ es) ≡ some x
  unfolding lookup_engine
  found_front p x es = let e = profile_eq_refl p in ground (arith, e)

  -- A transition finds its engine.
  abbrev pub Built : List (Profile × Engine F) → ScheduledTransition → Type 0
  Built es t = (e : Engine F) × (lookup_engine t.to_profile es ≡ some e)

  add_engines-Built :
      (limit : Option ℕ) (ts : List ScheduledTransition) (es : List (Profile × Engine F))
      → All (Built (add_engines limit ts es)) ts
  unfolding add_engines
  add_engines-Built limit [] es = tt
  add_engines-Built limit (t ∷ ts) es = elim (Option-cases (lookup_engine t.to_profile es)) [
    | inl miss ↦
        subst (λ z. Built z t × All (Built z) ts) (sym (rw (miss, add_engines) refl))
          (
            (
              _,
              kept_engine limit ts ((t.to_profile, new (bare t.to_profile) limit) ∷ es) t.to_profile
                  _ (found_front t.to_profile _ es),
            ),
            add_engines-Built limit ts ((t.to_profile, new (bare t.to_profile) limit) ∷ es),
          )
    | inr (x, hit) ↦
        subst (λ z. Built z t × All (Built z) ts) (sym (rw (hit, add_engines) refl))
          ((x, kept_engine limit ts es t.to_profile x hit), add_engines-Built limit ts es)
  ]

  -- The initial profile keeps its configured engine, and every target of a scheduled transition has
  -- an engine, so that the lookup of a transition cannot miss.
  pub build_engines_complete :
      (cfg : VirtualSmscConfig F) (initial : Engine F)
      → (lookup_engine cfg.scenario.profile (build_engines cfg initial) ≡ some initial)
        × All (Built (build_engines cfg initial)) cfg.scheduled_transitions
  unfolding build_engines
  build_engines_complete cfg initial = (
    kept_engine cfg.throughput_limit_per_sec cfg.scheduled_transitions _ _ initial
        (found_front cfg.scenario.profile initial []),
    add_engines-Built cfg.throughput_limit_per_sec cfg.scheduled_transitions _,
  )
