-- ===== src/Recorder/Ring.antt =====
-- The ring against the full history of appended records: what it retains, and what a snapshot of
-- it returns.
use go_smsc_simulator.Common.{
  ℕ, zero, suc, ◌+◌, ◌%◌, ◌^◌, ◌≤◌, ◌<◌, min, ◌≡◌, ◌≢◌, refl, sym, ap, ◌∙◌, arith, ltb, Bool-cases,
  List, [], ◌∷◌, ◌++◌, length, length-append, get_elem?, set, length-set, length-replicate, some,
  inl, inr,
}
use native.Mathlib.Nat.{div-add-mod}
use go_smsc_simulator.Recorder.{RecordedPdu, Recorder, zero_pdu, new, append}

-- The ring holds the last `cap_n` records of the history, each at its index modulo `cap_n`.
pub record IsRing (r : Recorder) (history : List RecordedPdu) : Type 0 where
  pub total : r.total ≡ length history
  pub cap_pos : 0 < r.cap_n
  pub allocated : length r.ring ≡ r.cap_n
  pub size : r.size ≡ min (length history) r.cap_n
  pub kept :
      (i : ℕ)
      → i < length history
      → length history ≤ i + r.cap_n
      → get_elem? r.ring (i % r.cap_n) ≡ get_elem? history i

-- Two indexes less than `c` apart fall on different slots.
slots_differ : (a b c : ℕ) → a < b → b < a + c → a % c ≢ b % c
slots_differ a b c h k e = grind (arith, div-add-mod a c, div-add-mod b c)

get_elem?-append_left {ℓ} :
    {A : Type ℓ} (xs ys : List A) (i : ℕ) → i < length xs → get_elem? (xs ++ ys) i ≡ get_elem? xs i
get_elem?-append_left [] ys i h = elim h [ ]
get_elem?-append_left (x ∷ xs) ys zero h = refl
get_elem?-append_left (x ∷ xs) ys (suc i) h = get_elem?-append_left xs ys i (omega arith)

get_elem?-append_last {ℓ} :
    {A : Type ℓ} (xs : List A) (x : A) → get_elem? (xs ++ x ∷ []) (length xs) ≡ some x
get_elem?-append_last [] x = refl
get_elem?-append_last (y ∷ xs) x = get_elem?-append_last xs x

get_elem?-set_self {ℓ} :
    {A : Type ℓ} (xs : List A) (i : ℕ) (v : A) → i < length xs → get_elem? (set xs i v) i ≡ some v
get_elem?-set_self [] i v h = elim h [ ]
get_elem?-set_self (x ∷ xs) zero v h = refl
get_elem?-set_self (x ∷ xs) (suc i) v h = get_elem?-set_self xs i v (omega arith)

get_elem?-set_ne {ℓ} :
    {A : Type ℓ} (xs : List A) (i j : ℕ) (v : A) → i ≢ j → get_elem? (set xs i v) j ≡ get_elem? xs j
get_elem?-set_ne [] i j v h = refl
get_elem?-set_ne (x ∷ xs) zero zero v h = absurd (h refl)
get_elem?-set_ne (x ∷ xs) zero (suc j) v h = refl
get_elem?-set_ne (x ∷ xs) (suc i) zero v h = refl
get_elem?-set_ne (x ∷ xs) (suc i) (suc j) v h = get_elem?-set_ne xs i j v (λ e. h (ap suc e))

-- The record as it is stored: with the index that `Append` assigns.
abbrev pub stamped : List RecordedPdu → RecordedPdu → RecordedPdu
stamped history p = record p { index = length history }

append_kept :
    (r : Recorder) (history : List RecordedPdu) (p : RecordedPdu) (i : ℕ)
    → IsRing r history
    → i < length history + 1
    → length history + 1 ≤ i + r.cap_n
    → get_elem? (set r.ring (r.total % r.cap_n) (record p { index = r.total })) (i % r.cap_n)
      ≡ get_elem? (history ++ stamped history p ∷ []) i
append_kept r history p i v h k = elim (Bool-cases (ltb i (length history))) [
  | inl old ↦
      get_elem?-set_ne r.ring _ _ _ (λ e.
        slots_differ i r.total r.cap_n (ground (arith, v.total)) (omega (arith, v.total)) (sym e))
      ∙ v.kept i (ground arith) (omega arith)
      ∙ sym (get_elem?-append_left history (stamped history p ∷ []) i (ground arith))
  | inr last ↦
      let e : i ≡ length history = ground arith in
      rw (e, v.total)
        (get_elem?-set_self r.ring (length history % r.cap_n) (stamped history p)
            (omega (arith, v.allocated, v.cap_pos))
          ∙ sym (get_elem?-append_last history (stamped history p)))
]

-- Appending keeps the ring exact, and the new record gets the next index, as long as indices do
-- not wrap.
pub append-IsRing :
    (r : Recorder) (history : List RecordedPdu) (p : RecordedPdu)
    → IsRing r history
    → length history + 1 < 2 ^ 64
    → IsRing (append r p) (history ++ stamped history p ∷ [])
unfolding append
append-IsRing r history p v h = record {
  total = rw v.total (omega (arith, length-append history (stamped history p ∷ [])));
  cap_pos = v.cap_pos;
  allocated =
      omega
        (arith, v.allocated, length-set r.ring (r.total % r.cap_n) (record p { index = r.total }));
  size = ground (arith, v.size, v.allocated, length-append history (stamped history p ∷ []));
  kept = λ i lt le.
      append_kept r history p i v (omega (arith, length-append history (stamped history p ∷ [])))
        (omega (arith, length-append history (stamped history p ∷ [])));
}

pub new-IsRing : (capacity : ℕ) → IsRing (new capacity) []
unfolding new
new-IsRing capacity = record {
  total = refl;
  cap_pos = ground arith;
  allocated = length-replicate _ zero_pdu;
  size = ground arith;
  kept = λ i lt le. elim lt [ ];
}
