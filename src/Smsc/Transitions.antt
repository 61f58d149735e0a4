-- ===== src/Smsc/Transitions.antt =====
-- The scheduled transitions of a bind (schedule_events.go), which are applied at each submit.
use go_smsc_simulator.Common.{
  ℕ, suc, zero, ◌+◌, ◌≤◌, ◌≡◌, refl, ap, ◌∙◌, arith, leb, true, List, [], ◌∷◌, drop, Bool-cases,
  Option-cases, All, inl, inr,
}
use go_smsc_simulator.Config.Schema.{ScheduledTransition}
use go_smsc_simulator.Smsc.Session.{World, lookup_engine}
use go_smsc_simulator.Smsc.Events.{
  apply_transition, next_transition, transitions_loop, apply_due_transitions,
}

drop_behind {ℓ} :
    {A : Type ℓ} (n : ℕ) (xs : List A) (y : A) (ys : List A)
    → drop n xs ≡ y ∷ ys
    → drop (n + 1) xs ≡ ys
drop_behind zero [] y ys h = absurd cc
drop_behind zero (x ∷ xs) y ys h = cc
drop_behind (suc n) [] y ys h = absurd cc
drop_behind (suc n) (x ∷ xs) y ys h =
    ap (λ k. drop k (x ∷ xs)) {x = suc n + 1} {y = suc (n + 1)} (omega arith)
    ∙ drop_behind n xs y ys h

module _ {S F : Type 0} where
  abbrev waiting : World S F → List ScheduledTransition
  waiting w = drop w.session.transition_cursor w.session.transitions

  waiting-next :
      (t : ScheduledTransition) (ts : List ScheduledTransition) (w : World S F)
      → waiting w ≡ t ∷ ts
      → waiting (next_transition (apply_transition t.to_profile w)) ≡ ts
  unfolding apply_transition
  waiting-next t ts w h =
      let next = drop_behind w.session.transition_cursor w.session.transitions t ts h in
      elim (Option-cases (lookup_engine t.to_profile w.smsc.engines)) [
        | inl none_built ↦ rw (apply_transition, none_built) next
        | inr (e, built) ↦ rw (apply_transition, built) next
      ]

  loop_again :
      (earlier tick : ℕ) (ts : List ScheduledTransition) (w : World S F)
      → earlier ≤ tick
      → waiting w ≡ ts
      → apply_due_transitions tick (transitions_loop earlier ts w) ≡ transitions_loop tick ts w
  unfolding apply_due_transitions transitions_loop
  loop_again earlier tick [] w le h = ap (λ us. transitions_loop tick us w) h
  loop_again earlier tick (t ∷ ts) w le h = elim (Bool-cases (leb t.at_tick earlier)) [
    | inl due ↦
        let both : leb t.at_tick tick ≡ true = ground arith in
        rw (due, both) (loop_again earlier tick ts _ le (waiting-next t ts w h))
    | inr later ↦ rw later (ap (λ us. transitions_loop tick us w) h)
  ]

  again :
      (earlier tick : ℕ) (w : World S F)
      → earlier ≤ tick
      → apply_due_transitions tick (apply_due_transitions earlier w) ≡ apply_due_transitions tick w
  unfolding apply_due_transitions
  again earlier tick w le = loop_again earlier tick (waiting w) w le refl

  abbrev pub passes : List ℕ → World S F → World S F
  passes [] w = w
  passes (t ∷ ts) w = passes ts (apply_due_transitions t w)

  -- What the transitions make of a session is a function of the clock alone: after passes at any
  -- ticks up to now, in any order, the pass at this tick leaves the session and its virtual SMSC
  -- as if it had been the only one.
  pub apply_due_transitions-passes :
      (tick : ℕ) (ticks : List ℕ) (w : World S F)
      → All (λ (t : ℕ). t ≤ tick) ticks
      → apply_due_transitions tick (passes ticks w) ≡ apply_due_transitions tick w
  apply_due_transitions-passes tick [] w h = refl
  apply_due_transitions-passes tick (t ∷ ts) w (le, h) =
      apply_due_transitions-passes tick ts (apply_due_transitions t w) h ∙ again t tick w le
