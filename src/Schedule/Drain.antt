-- ===== src/Schedule/Drain.antt =====
-- `DrainDue` and `DrainAll`: what they release and what they leave.
use go_smsc_simulator.Common.{
  ℕ, zero, suc, ◌≤◌, ◌<◌, ◌≡◌, refl, ap, arith, true, false, List, [], ◌∷◌, ◌++◌, ne→==_false,
  length, take, drop, take-append_length, drop-append_length, take-append-drop, All, All-map,
  Bool-cases, inl, inr, ◌==◌, if◌then◌else◌,
}
use go_smsc_simulator.Schedule.{Event, Runner, search, at, is_later, drain_due}
use go_smsc_simulator.Schedule.Search.{search-split}
use go_smsc_simulator.Schedule.Order.{Before, IsSorted}

module _ {ℓ} {A : Type ℓ} where
  record Cut (clock : ℕ) (xs : List (Event A)) : Type ℓ where
    front : List (Event A)
    back : List (Event A)
    split : xs ≡ front ++ back
    due : All (λ p. is_later clock p ≡ false) front
    later : All (λ p. is_later clock p ≡ true) back

  All-later :
      (clock : ℕ) (p : Event A) (ps : List (Event A))
      → is_later clock p ≡ true
      → All (Before p) ps
      → All (λ q. is_later clock q ≡ true) ps
  All-later clock p ps h b = All-map ps (λ q c. ground arith) b

  cut : (clock : ℕ) (xs : List (Event A)) → IsSorted xs → Cut clock xs
  cut clock [] s = record { front = []; back = []; split = refl; due = tt; later = tt }
  cut clock (p ∷ ps) (b, s) = elim (Bool-cases (is_later clock p)) [
    | inl h ↦ record {
      front = [];
      back = p ∷ ps;
      split = refl;
      due = tt;
      later = (h, All-later clock p ps h b);
    }
    | inr h ↦ extend h (cut clock ps s)
  ]
    where
      extend : is_later clock p ≡ false → Cut clock ps → Cut clock (p ∷ ps)
      extend h w = record {
        front = p ∷ w.front;
        back = w.back;
        split = ap (◌∷◌ p) w.split;
        due = (h, w.due);
        later = w.later;
      }

  -- The early return on no due event is the general case at zero.
  early :
      (r : Runner A) (n : ℕ)
      → Path
          (List (Event A) × Runner A)
          (if n == 0 then ([], r) else (take n r.pending, record r { pending = drop n r.pending }))
          (take n r.pending, record r { pending = drop n r.pending })
  early r zero = refl
  early r (suc n) = rw (ne→==_false (suc n) 0 (omega arith))

  drain_due_lem :
      (r : Runner A) (clock n : ℕ)
      → search (length r.pending) (at (is_later clock) r.pending) ≡ n
      → drain_due r clock ≡ (take n r.pending, record r { pending = drop n r.pending })
  unfolding drain_due
  drain_due_lem r clock n e = rw (early r _, e)

  -- Nothing is lost, added or reordered by a drain, and the sequence numbers go on.
  pub drain_due-append :
      (r : Runner A) (clock : ℕ)
      → ((drain_due r clock).0 ++ (drain_due r clock).1.pending ≡ r.pending)
        × ((drain_due r clock).1.seq ≡ r.seq)
  drain_due-append r clock = rw (drain_due_lem r clock _ refl) (take-append-drop _ r.pending, refl)

  -- Of sorted pending events, those that are released have come due, and those that stay have not.
  pub drain_due_exact :
      (r : Runner A) (clock : ℕ)
      → IsSorted r.pending
      → All (λ p. p.due_tick ≤ clock) (drain_due r clock).0
        × All (λ p. clock < p.due_tick) (drain_due r clock).1.pending
  drain_due_exact r clock s =
      let w = cut clock r.pending s in
      rw
        (drain_due_lem r clock (length w.front)
          (rw w.split (search-split (is_later clock) w.front w.back w.due w.later)))
        (rw (w.split, take-append_length w.front w.back, drop-append_length w.front w.back)
          (
            All-map w.front (λ p h. ground arith) w.due,
            All-map w.back (λ p h. ground arith) w.later,
          ))
