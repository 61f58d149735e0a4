-- ===== src/Schedule/History.antt =====
-- The whole life of a bind's schedule: events are scheduled, drained as the clock advances, and
-- flushed when traffic ceases.
use go_smsc_simulator.Common.{
  ℕ, ◌+◌, ◌^◌, ◌≤◌, ◌<◌, ◌≡◌, refl, ap, ◌∙◌, subst, arith, List, [], ◌∷◌, ◌++◌, length, map,
  append_assoc, append-nil, take, drop, take-append-drop, All, All-append, All-split, All-map,
}
use mathlib.Core.List.{Perm, perm_middle}
use mathlib.Core.List.Perm
use go_smsc_simulator.Schedule.{
  Event, Runner, schedule, event_of, drain_due, drain_all, empty, insert_at, search, at,
  sorts_after,
}
use go_smsc_simulator.Schedule.Order.{
  Before, IsSorted, IsWf, schedule-IsSorted, schedule-IsWf, seq-schedule,
}
use go_smsc_simulator.Schedule.Drain.{drain_due-append, drain_due_exact}

pub data Op {ℓ} (A : Type ℓ) : Type ℓ where
  schedules : ℕ → A → Op A
  drains : ℕ → Op A
  flushes : Op A

-- A runner, and every event that it has released so far, in the order of release.
pub record Log {ℓ} (A : Type ℓ) : Type ℓ where
  pub runner : Runner A
  pub emitted : List (Event A)

module _ {ℓ} {A : Type ℓ} where
  abbrev release : Log A → List (Event A) × Runner A → Log A
  release l (out, r) = record { runner = r; emitted = l.emitted ++ out }

  unfoldable pub step : Log A → Op A → Log A
  step l (schedules due payload) = record l { runner = schedule l.runner due payload }
  step l (drains clock) = release l (drain_due l.runner clock)
  step l flushes = release l (drain_all l.runner)

  unfoldable pub run : Log A → List (Op A) → Log A
  run l [] = l
  run l (o ∷ os) = run (step l o) os

  abbrev pub start : Log A
  start = record { runner = empty; emitted = [] }

  -- What an event was scheduled as.
  abbrev pub item : Event A → ℕ × A
  item e = (e.due_tick, e.payload)

  abbrev pub requested : List (Op A) → List (ℕ × A)
  requested [] = []
  requested (schedules due payload ∷ os) = (due, payload) ∷ requested os
  requested (drains clock ∷ os) = requested os
  requested (flushes ∷ os) = requested os

  abbrev held : Log A → List (Event A)
  held l = l.emitted ++ l.runner.pending

  schedule-perm :
      (r : Runner A) (due : ℕ) (payload : A)
      → Perm (schedule r due payload).pending (event_of r due payload ∷ r.pending)
  unfolding schedule insert_at
  schedule-perm r due payload =
      let n = search (length r.pending) (at (sorts_after (event_of r due payload)) r.pending) in
      subst (λ z. Perm (schedule r due payload).pending (event_of r due payload ∷ z))
        (take-append-drop n r.pending) (perm_middle (take n r.pending) (drop n r.pending))

  held-drain : (l : Log A) (clock : ℕ) → held (step l (drains clock)) ≡ held l
  unfolding step
  held-drain l clock =
      append_assoc l.emitted _ _ ∙ ap (◌++◌ l.emitted) (drain_due-append l.runner clock).0

  held-flush : (l : Log A) → held (step l flushes) ≡ held l
  unfolding step drain_all
  held-flush l = append_assoc l.emitted _ _ ∙ ap (◌++◌ l.emitted) (append-nil _)

  held-run :
      (l : Log A) (os : List (Op A))
      → Perm (map item (held (run l os))) (requested os ++ map item (held l))
  unfolding run
  held-run l [] = Perm.refl _
  held-run l (schedules due payload ∷ os) =
      Perm.trans (held-run (step l (schedules due payload)) os) (
        Perm.trans (Perm.append (Perm.refl (requested os)) (Perm.map item (grown)))
          (perm_middle (requested os) (map item (held l))))
    where
      grown : Perm (held (step l (schedules due payload))) (event_of l.runner due payload ∷ held l)
      grown =
          unfold step in
          Perm.trans (Perm.append (Perm.refl l.emitted) (schedule-perm l.runner due payload))
            (perm_middle l.emitted l.runner.pending)
  held-run l (drains clock ∷ os) =
      subst
        (λ z. Perm (map item (held (run (step l (drains clock)) os))) (requested os ++ map item z))
        (held-drain l clock) (held-run (step l (drains clock)) os)
  held-run l (flushes ∷ os) =
      subst (λ z. Perm (map item (held (run (step l flushes) os))) (requested os ++ map item z))
        (held-flush l) (held-run (step l flushes) os)

  -- Whatever is scheduled, drained and flushed, in any order: what was released, together with
  -- what is pending, is what was scheduled, each event with its tick and payload as often as it was
  -- scheduled. After a flush all of it has been released.
  pub run_complete :
      (os : List (Op A))
      → Perm (map item ((run start os).emitted ++ (run start os).runner.pending)) (requested os)
        × Perm (map item (step (run start os) flushes).emitted) (requested os)
        × ((step (run start os) flushes).runner.pending ≡ [])
  unfolding step drain_all
  run_complete os = (all_held os, all_held os, refl)
    where
      all_held : (ps : List (Op A)) → Perm (map item (held (run start ps))) (requested ps)
      all_held ps =
          subst (Perm (map item (held (run start ps)))) (append-nil (requested ps))
            (unfold empty in held-run start ps)

  -- Drains at a clock that does not go back, and only events that are due after the clock.
  abbrev pub Timely : ℕ → List (Op A) → Type 0
  Timely clock [] = Unit {0}
  Timely clock (schedules due payload ∷ os) = (clock < due) × Timely clock os
  Timely clock (drains next ∷ os) = (clock ≤ next) × Timely next os
  Timely clock (flushes ∷ os) = ⊥

  record InOrder (clock : ℕ) (l : Log A) : Type ℓ where
    whole : IsSorted (held l)
    wf : IsWf l.runner
    past : All (λ p. p.due_tick ≤ clock) l.emitted

  IsSorted-back : (xs ys : List (Event A)) → IsSorted (xs ++ ys) → IsSorted ys
  IsSorted-back [] ys s = s
  IsSorted-back (x ∷ xs) ys (h, s) = IsSorted-back xs ys s

  IsSorted-front : (xs ys : List (Event A)) → IsSorted (xs ++ ys) → IsSorted xs
  IsSorted-front [] ys s = tt
  IsSorted-front (x ∷ xs) ys (h, s) = ((All-split (Before x) xs ys h).0, IsSorted-front xs ys s)

  schedules-InOrder :
      (clock : ℕ) (l : Log A) (due : ℕ) (payload : A)
      → InOrder clock l
      → clock < due
      → l.runner.seq + 1 < 2 ^ 64
      → InOrder clock (step l (schedules due payload))
  unfolding step
  schedules-InOrder clock l due payload v h k = record {
    whole =
        schedule-IsSorted l.emitted l.runner due payload v.whole v.wf.sorted v.wf.fresh
          (All-map l.emitted (λ p b. omega arith) v.past);
    wf = schedule-IsWf l.runner due payload v.wf k;
    past = v.past;
  }

  drains-InOrder :
      (clock next : ℕ) (l : Log A)
      → InOrder clock l
      → clock ≤ next
      → InOrder next (step l (drains next))
  drains-InOrder clock next l v h = record {
    whole = rw (held-drain l next) v.whole;
    wf = unfold step in drained;
    past =
        unfold step in
        All-append (λ p. p.due_tick ≤ next) l.emitted _
          (All-map l.emitted (λ p b. omega arith) v.past)
          (drain_due_exact l.runner next v.wf.sorted).0;
  }
    where
      drained : IsWf (drain_due l.runner next).1
      drained =
          let (kept, same) = drain_due-append l.runner next in
          record {
            sorted = IsSorted-back (drain_due l.runner next).0 _ (rw kept v.wf.sorted);
            fresh =
                rw same
                  (All-split (λ p. p.seq < l.runner.seq) (drain_due l.runner next).0 _
                    (rw kept v.wf.fresh)).1;
          }

  run-InOrder :
      (clock : ℕ) (l : Log A) (os : List (Op A))
      → InOrder clock l
      → Timely clock os
      → l.runner.seq + length os < 2 ^ 64
      → IsSorted (held (run l os))
  unfolding run
  run-InOrder clock l [] v t k = v.whole
  run-InOrder clock l (schedules due payload ∷ os) v (h, t) k =
      run-InOrder clock (step l (schedules due payload)) os
        (schedules-InOrder clock l due payload v h (omega arith)) t
        (unfold step in omega (arith, seq-schedule l.runner due payload (omega arith)))
  run-InOrder clock l (drains next ∷ os) v (h, t) k =
      run-InOrder next (step l (drains next)) os (drains-InOrder clock next l v h) t
        (unfold step in omega (arith, (drain_due-append l.runner next).1))
  run-InOrder clock l (flushes ∷ os) v t k = elim t [ ]

  -- As long as nothing is flushed, every event of a bind's life is released in (DueTick, Seq)
  -- order, across all drains, if each is due after the clock at which it is scheduled, the clock of
  -- the drains does not go back, and the life has fewer than 2^64 operations.
  pub run_in_order :
      (os : List (Op A)) → Timely 0 os → length os < 2 ^ 64 → IsSorted (run start os).emitted
  run_in_order os t k =
      IsSorted-front (run start os).emitted _
        (run-InOrder 0 start os starting t (unfold empty in omega arith))
    where
      starting : InOrder 0 start
      starting =
          unfold empty in record { whole = tt; wf = record { sorted = tt; fresh = tt }; past = tt }
