-- ===== src/Smsc/Registry/Sessions.antt =====
-- The registry of the binds, whatever the sessions on a virtual SMSC do in whatever order.
use go_smsc_simulator.Common.{
  ℕ, zero, suc, ◌+◌, ◌^◌, ◌≤◌, ◌<◌, ◌==◌, ◌≡◌, refl, sym, subst, ap, ◌∙◌, arith, Bool, true, false,
  not, ◌&&◌, ◌||◌, List, [], ◌∷◌, length, some, Option-cases, Bool-cases, inl, inr, if◌then◌else◌,
}
use native.Mathlib.Nat.{mod-eq_of_lt}
use go_smsc_simulator.Rng.{Rand}
use go_smsc_simulator.Config.Schema.{VirtualSmscConfig}
use go_smsc_simulator.Smsc.Binds.{BindInfo, remove, add}
use go_smsc_simulator.Smsc.Session.{World}
use go_smsc_simulator.Smsc.Handle.{is_open}
use go_smsc_simulator.Smsc.Create.{new_session, new_virtual_smsc}
use go_smsc_simulator.Smsc.Corpus.{next_tick}
use go_smsc_simulator.Smsc.Registry.{
  Seat, Floor, FloorEvent, seat_out, seated, world_of, floor_run, new_floor,
}
use go_smsc_simulator.Smsc.Registry.Invariant.{run-keeps}
use go_smsc_simulator.Smsc.Registry.Round.{Registers, stays, binds, round-Registers}

abbrev is_id : ℕ → ℕ → ℕ
is_id n id = if id == n then 1 else 0

is_id_above : (seq n : ℕ) → is_id (suc seq + suc n) (suc seq) ≡ 0
is_id_above seq n = ground arith

-- The entries under an id.
abbrev pub binds_with : ℕ → List BindInfo → ℕ
binds_with n [] = 0
binds_with n (b ∷ bs) = is_id n b.id + binds_with n bs

binds_with-remove :
    (n id : ℕ) (bs : List BindInfo)
    → binds_with n (remove id bs) ≡ (if id == n then 0 else binds_with n bs)
unfolding remove
binds_with-remove n id [] = ground arith
binds_with-remove n id (b ∷ bs) = ground (arith, binds_with-remove n id bs)

module _ {S F : Type 0} where
  -- The sessions that have an id, and whether one is open that has any.
  abbrev pub seats_with : ℕ → List (Seat S F) → ℕ
  seats_with n [] = 0
  seats_with n (s ∷ ss) = is_id n s.session.id + seats_with n ss

  abbrev open_named : List (Seat S F) → Bool
  open_named [] = false
  open_named (s ∷ ss) = is_open s.session.state && not (s.session.id == 0) || open_named ss

  seats_with-seat_out :
      (n i : ℕ) (ss : List (Seat S F)) (s : Seat S F) (rest : List (Seat S F))
      → seat_out i ss ≡ some (s, rest)
      → (seats_with n ss ≡ is_id n s.session.id + seats_with n rest)
        × (open_named ss ≡ (is_open s.session.state && not (s.session.id == 0) || open_named rest))
  unfolding seat_out
  seats_with-seat_out n i [] s rest h = absurd (cc h)
  seats_with-seat_out n zero (t ∷ ss) s rest h = (ground arith, ground arith)
  seats_with-seat_out n (suc i) (t ∷ ss) s rest h = elim (Option-cases (seat_out i ss)) [
    | inl e ↦ absurd (ground arith)
    | inr ((u, us), e) ↦
        let (a, b) = seats_with-seat_out n i ss u us e in (ground arith, ground arith)
  ]

  -- After `k` events.
  record Registry (k seq : ℕ) (bs : List BindInfo) (ss : List (Seat S F)) : Type 0 where
    counted : seq ≤ k
    unnamed : open_named ss ≡ false
    below : (n : ℕ) → seats_with (seq + suc n) ss ≡ 0
    same : (n : ℕ) → binds_with (suc n) bs ≡ seats_with (suc n) ss
    once : (n : ℕ) → seats_with (suc n) ss ≤ 1
    real : binds_with 0 bs ≡ 0

  -- A connection that is accepted.
  Registry-connects :
      (k seq : ℕ) (bs : List BindInfo) (ss : List (Seat S F)) (t : Seat S F)
      → Registry k seq bs ss
      → t.session.id ≡ 0
      → Registry (suc k) seq bs (t ∷ ss)
  Registry-connects k seq bs ss t v id =
      let none_above : (n : ℕ) → is_id (suc n) t.session.id ≡ 0 = λ n. ground arith in
      record {
        counted = omega (arith, v.counted);
        unnamed = let a = v.unnamed in ground arith;
        below = λ n.
            let a = v.below n in
            let b =
              subst (λ m. is_id m t.session.id ≡ 0) {x = suc (seq + n)} {y = seq + suc n}
                (omega arith) (none_above (seq + n)) in
            omega (arith, a, b);
        same = λ n. omega (arith, v.same n, none_above n);
        once = λ n. omega (arith, v.once n, none_above n);
        real = v.real;
      }

  -- A session that keeps its place.
  Registry-stays :
      (k seq i : ℕ) (bs : List BindInfo) (ss rest : List (Seat S F)) (s t : Seat S F)
      → Registry k seq bs ss
      → seat_out i ss ≡ some (s, rest)
      → t.session.id ≡ s.session.id
      → (is_open t.session.state && not (is_open s.session.state)) ≡ false
      → Registry (suc k) seq bs (t ∷ rest)
  Registry-stays k seq i bs ss rest s t v at id shut =
      let with_id : (n : ℕ) → seats_with n ss ≡ seats_with n (t ∷ rest) = λ n.
        let a = (seats_with-seat_out n i ss s rest at).0 in
        let b = ap (is_id n) id in omega (arith, a, b) in
      let named = (seats_with-seat_out 0 i ss s rest at).1 in
      record {
        counted = omega (arith, v.counted);
        unnamed = let a = v.unnamed in ground arith;
        below = λ n. sym (with_id (seq + suc n)) ∙ v.below n;
        same = λ n. v.same n ∙ with_id (suc n);
        once = λ n. omega (arith, v.once n, with_id (suc n));
        real = v.real;
      }

  -- A session that binds: it was open, so it had no id, and the next one is new.
  Registry-binds :
      (k seq i : ℕ) (bs : List BindInfo) (ss rest : List (Seat S F)) (s t : Seat S F)
      (info : BindInfo)
      → Registry k seq bs ss
      → seat_out i ss ≡ some (s, rest)
      → is_open s.session.state ≡ true
      → is_open t.session.state ≡ false
      → t.session.id ≡ suc seq
      → info.id ≡ suc seq
      → Registry (suc k) (suc seq) (add info bs) (t ∷ rest)
  unfolding add
  Registry-binds k seq i bs ss rest s t info v at was_open shut id own =
      let named = (seats_with-seat_out 0 i ss s rest at).1 in
      let unnamed = v.unnamed in
      let nameless : s.session.id ≡ 0 = ground arith in
      let others : (n : ℕ) → seats_with (suc n) ss ≡ seats_with (suc n) rest = λ n.
        let a = (seats_with-seat_out (suc n) i ss s rest at).0 in
        let b = ap (is_id (suc n)) nameless in ground (arith, a, b) in
      let free : seats_with (suc seq) rest ≡ 0 =
        sym (others seq)
        ∙ subst (λ n. seats_with n ss ≡ 0) {x = seq + 1} (omega arith) (v.below 0) in
      let taken : (n : ℕ) → (suc seq == suc n) ≡ true → seats_with (suc n) rest ≡ 0 =
        λ n e. subst (λ m. seats_with (suc m) rest ≡ 0) {x = seq} {y = n} (ground arith) free in
      let gone : (n : ℕ)
          → binds_with n (remove info.id bs) ≡ (if info.id == n then 0 else binds_with n bs) =
        λ n. binds_with-remove n info.id bs in
      record {
        counted = omega (arith, v.counted);
        unnamed = ground arith;
        below = λ n.
            let a =
              subst (λ m. seats_with m ss ≡ 0) {x = seq + suc (suc n)} {y = suc (seq + suc n)}
                (omega arith) (v.below (suc n)) in
            let b = others (seq + suc n) in
            let c = ap (is_id (suc seq + suc n)) id in
            let d = is_id_above seq n in
            let e =
              ap (λ m. seats_with m rest) {x = suc seq + suc n} {y = suc (seq + suc n)}
                (omega arith) in
            omega (arith, a, b, c, d, e);
        same = λ n.
            let a = v.same n in
            let b = others n in
            let c = gone (suc n) in
            elim (Bool-cases (suc seq == suc n)) [
              | inl e ↦ let z = taken n e in ground arith
              | inr e ↦ ground arith
            ];
        once = λ n.
            let a = v.once n in
            let b = others n in
            elim (Bool-cases (suc seq == suc n)) [
              | inl e ↦ let z = taken n e in ground arith
              | inr e ↦ ground arith
            ];
        real = let c = gone 0 in let r = v.real in ground arith;
      }

  -- A session that leaves.
  Registry-departs :
      (k seq i : ℕ) (bs : List BindInfo) (ss rest : List (Seat S F)) (s : Seat S F)
      → Registry k seq bs ss
      → seat_out i ss ≡ some (s, rest)
      → Registry (suc k) seq (remove s.session.id bs) rest
  Registry-departs k seq i bs ss rest s v at =
      let out : (n : ℕ) → seats_with n ss ≡ is_id n s.session.id + seats_with n rest =
        λ n. (seats_with-seat_out n i ss s rest at).0 in
      let named = (seats_with-seat_out 0 i ss s rest at).1 in
      let gone : (n : ℕ)
          → binds_with n (remove s.session.id bs)
            ≡ (if s.session.id == n then 0 else binds_with n bs) =
        λ n. binds_with-remove n s.session.id bs in
      record {
        counted = omega (arith, v.counted);
        unnamed = let a = v.unnamed in ground arith;
        below = λ n. omega (arith, v.below n, out (seq + suc n));
        same = λ n.
            let a = v.same n in
            let b = out (suc n) in let c = gone (suc n) in let o = v.once n in ground arith;
        once = λ n. omega (arith, v.once n, out (suc n));
        real = let c = gone 0 in let r = v.real in ground arith;
      }

module _ (R : Rand) where
  open R use {Source, Float}

  abbrev Registered : ℕ → Floor Source Float → Type 0
  Registered k f = Registry k f.smsc.bind_seq f.smsc.binds f.seats

  served :
      (k : ℕ) (f : Floor Source Float) (i : ℕ) (s : Seat Source Float)
      (rest : List (Seat Source Float)) (w : World Source Float)
      → Registered k f
      → suc k < 2 ^ 64
      → seat_out i f.seats ≡ some (s, rest)
      → Registers (world_of s f.smsc) w
      → Registered (suc k) (record f { smsc = w.smsc; seats = seated w ∷ rest })
  served k f i s rest w v small at (stays m) =
      rw (m.seq, m.binds) (Registry-stays k _ i _ f.seats rest s (seated w) v at m.id m.shut)
  served k f i s rest w v small at (binds b) =
      let next =
        mod-eq_of_lt {n = f.smsc.bind_seq + 1} {m = 2 ^ 64} (omega (arith, v.counted, small)) in
      let up : next_tick f.smsc.bind_seq ≡ suc f.smsc.bind_seq = next ∙ omega arith in
      rw (b.seq, b.binds, up)
        (Registry-binds k _ i _ f.seats rest s (seated w) b.info v at b.open_before b.shut
          (b.id ∙ up) (b.info_id ∙ up))

  run-Registered :
      (es : List (FloorEvent Source)) (f f' : Floor Source Float)
      → Registered 0 f
      → length es < 2 ^ 64
      → floor_run R es f ≡ some f'
      → Registered (0 + length es) f'
  unfolding new_session
  run-Registered es f f' v small h =
      run-keeps R Registered
        (λ k g u. Registry-connects k g.smsc.bind_seq g.smsc.binds g.seats _ u refl)
        (λ k i g s rest env arrival u fits at.
          served k g i s rest _ u fits at (round-Registers R env arrival (world_of s g.smsc)))
        (λ k i g s rest u at. Registry-departs k g.smsc.bind_seq i g.smsc.binds g.seats rest s u at)
        0 es f f' v (omega (arith, small)) h

  new_floor-Registered :
      (cfg : VirtualSmscConfig Float) → Registered 0 (new_floor (new_virtual_smsc cfg))
  unfolding new_virtual_smsc
  new_floor-Registered cfg = record {
    counted = omega arith;
    unnamed = refl;
    below = λ n. refl;
    same = λ n. refl;
    once = λ n. omega arith;
    real = refl;
  }

  -- On a new virtual SMSC, whatever its sessions do in whatever order, up to fewer than 2^64 steps:
  -- the registry has exactly one entry under the id of each session that has bound and whose teardown
  -- has not removed it, and no other entry.
  pub registry_exact :
      (cfg : VirtualSmscConfig Float) (es : List (FloorEvent Source)) (f : Floor Source Float)
      (n : ℕ)
      → floor_run R es (new_floor (new_virtual_smsc cfg)) ≡ some f
      → length es < 2 ^ 64
      → (binds_with (suc n) f.smsc.binds ≡ seats_with (suc n) f.seats)
        × (seats_with (suc n) f.seats ≤ 1)
        × (binds_with 0 f.smsc.binds ≡ 0)
  registry_exact cfg es f n h small =
      let v = run-Registered es _ f (new_floor-Registered cfg) small h in
      (v.same n, v.once n, v.real)
