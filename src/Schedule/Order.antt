-- ===== src/Schedule/Order.antt =====
-- `Schedule` and the (DueTick, Seq) order of the pending events.
use go_smsc_simulator.Common.{
  ℕ, ◌+◌, ◌^◌, ◌<◌, ◌≡◌, refl, ap, subst, arith, true, false, List, [], ◌∷◌, ◌++◌,
  take-append_length, drop-append_length, All, All-append, All-split, All-map, All-insert,
  append_assoc, Bool-cases, inl, inr, ◌⊎◌,
}
use native.Mathlib.Nat.{mod-eq_of_lt}
use go_smsc_simulator.Schedule.{Event, Runner, sorts_after, insert_at, event_of, schedule}
use go_smsc_simulator.Schedule.Search.{search-split}

-- The drain order, (DueTick, Seq).
abbrev pub Before {ℓ} : {A : Type ℓ} → Event A → Event A → Type 0
Before e p = (e.due_tick < p.due_tick) ⊎ ((e.due_tick ≡ p.due_tick) × (e.seq < p.seq))

module _ {ℓ} {A : Type ℓ} where
  abbrev pub IsSorted : List (Event A) → Type 0
  IsSorted [] = Unit {0}
  IsSorted (e ∷ es) = All (Before e) es × IsSorted es

  -- The sequence number to assign next is above every pending one.
  pub record IsWf (r : Runner A) : Type 0 where
    pub sorted : IsSorted r.pending
    pub fresh : All (λ e. e.seq < r.seq) r.pending

  Before-trans : (a b c : Event A) → Before a b → Before b c → Before a c
  Before-trans a b c p q = ground arith

  All-Before :
      (a b : Event A) (es : List (Event A)) → Before a b → All (Before b) es → All (Before a) es
  All-Before a b [] p h = tt
  All-Before a b (e ∷ es) p (q, h) = (Before-trans a b e p q, All-Before a b es p h)

  -- The place of an event in a sorted list: what goes before it, and what sorts after it.
  pub record Place (e : Event A) (xs : List (Event A)) : Type ℓ where
    pub front : List (Event A)
    pub back : List (Event A)
    pub split : xs ≡ front ++ back
    pub not_after : All (λ p. sorts_after e p ≡ false) front
    pub after : All (λ p. sorts_after e p ≡ true) back

  All-after :
      (e p : Event A) (ps : List (Event A))
      → sorts_after e p ≡ true
      → All (Before p) ps
      → All (λ q. sorts_after e q ≡ true) ps
  All-after e p [] h b = tt
  All-after e p (q ∷ ps) h (b, bs) = (ground arith, All-after e p ps h bs)

  pub place : (e : Event A) (xs : List (Event A)) → IsSorted xs → Place e xs
  place e [] s = record { front = []; back = []; split = refl; not_after = tt; after = tt }
  place e (p ∷ ps) (b, s) = elim (Bool-cases (sorts_after e p)) [
    | inl h ↦ record {
      front = [];
      back = p ∷ ps;
      split = refl;
      not_after = tt;
      after = (h, All-after e p ps h b);
    }
    | inr h ↦ extend h (place e ps s)
  ]
    where
      extend : sorts_after e p ≡ false → Place e ps → Place e (p ∷ ps)
      extend h w = record {
        front = p ∷ w.front;
        back = w.back;
        split = ap (◌∷◌ p) w.split;
        not_after = (h, w.not_after);
        after = w.after;
      }

  -- The code inserts at that place.
  pub pending-schedule :
      (r : Runner A) (due : ℕ) (payload : A) (w : Place (event_of r due payload) r.pending)
      → (schedule r due payload).pending ≡ w.front ++ event_of r due payload ∷ w.back
  unfolding schedule insert_at
  pending-schedule r due payload w = rw (
    w.split,
    search-split (sorts_after (event_of r due payload)) w.front w.back w.not_after w.after,
    take-append_length w.front w.back,
    drop-append_length w.front w.back,
  )

  IsSorted-insert :
      (front back : List (Event A)) (e : Event A)
      → IsSorted (front ++ back)
      → All (λ p. Before p e) front
      → All (Before e) back
      → IsSorted (front ++ e ∷ back)
  IsSorted-insert [] back e s f b = (b, s)
  IsSorted-insert (p ∷ front) back e (h, s) (q, f) b =
      let (before_front, before_back) = All-split (Before p) front back h in
      (
        All-append (Before p) front (e ∷ back) before_front (q, before_back),
        IsSorted-insert front back e s f b,
      )

  not_after→before :
      (e : Event A) (ps : List (Event A))
      → All (λ p. sorts_after e p ≡ false) ps
      → All (λ p. p.seq < e.seq) ps
      → All (λ p. Before p e) ps
  not_after→before e [] h f = tt
  not_after→before e (p ∷ ps) (a, h) (l, f) = (ground arith, not_after→before e ps h f)

  after→before :
      (e : Event A) (ps : List (Event A)) → All (λ p. sorts_after e p ≡ true) ps → All (Before e) ps
  after→before e ps h = All-map ps (λ p a. ground arith) h

  -- In front of what is scheduled stands what was emitted, all of it due before the new event: the
  -- whole stays sorted. (With nothing emitted this is the order of the pending events.)
  pub schedule-IsSorted :
      (emitted : List (Event A)) (r : Runner A) (due : ℕ) (payload : A)
      → IsSorted (emitted ++ r.pending)
      → IsSorted r.pending
      → All (λ p. p.seq < r.seq) r.pending
      → All (λ p. p.due_tick < due) emitted
      → IsSorted (emitted ++ (schedule r due payload).pending)
  schedule-IsSorted emitted r due payload s s' f l =
      let e = event_of r due payload in
      let w = place e r.pending s' in
      let fresh = All-split (λ p. p.seq < r.seq) w.front w.back (subst (All _) w.split f) in
      rw (pending-schedule r due payload w, ← append_assoc emitted w.front (e ∷ w.back))
        (IsSorted-insert (emitted ++ w.front) w.back e
          (rw (append_assoc emitted w.front w.back, ← w.split) s)
          (All-append (λ p. Before p e) emitted w.front (All-map emitted (λ p h. inl h) l)
            (not_after→before e w.front w.not_after fresh.0))
          (after→before e w.back w.after))

  pub seq-schedule :
      (r : Runner A) (due : ℕ) (payload : A)
      → r.seq + 1 < 2 ^ 64
      → (schedule r due payload).seq ≡ r.seq + 1
  unfolding schedule
  seq-schedule r due payload h = mod-eq_of_lt h

  schedule_fresh :
      (r : Runner A) (due : ℕ) (payload : A)
      → IsWf r
      → All (λ p. p.seq < r.seq + 1) (schedule r due payload).pending
  schedule_fresh r due payload v =
      let w = place (event_of r due payload) r.pending v.sorted in
      rw (pending-schedule r due payload w) (
        All-insert _ w.front w.back (event_of r due payload)
          (rw w.split at
            (All-map {Q = λ p. p.seq < r.seq + 1} r.pending (λ p l. omega arith) v.fresh))
          (omega arith))

  -- Scheduling keeps the order and the freshness of the sequence numbers, as long as these have
  -- not wrapped.
  pub schedule-IsWf :
      (r : Runner A) (due : ℕ) (payload : A)
      → IsWf r
      → r.seq + 1 < 2 ^ 64
      → IsWf (schedule r due payload)
  schedule-IsWf r due payload v h = record {
    sorted = schedule-IsSorted [] r due payload v.sorted v.sorted v.fresh tt;
    fresh = rw (seq-schedule r due payload h) (schedule_fresh r due payload v);
  }
