-- ===== src/Recorder/Snapshot.antt =====
-- `Snapshot` against the full history of appended records.
use go_smsc_simulator.Common.{
  ℕ, zero, suc, ◌+◌, ◌-◌, ◌%◌, ◌^◌, ◌≤◌, ◌<◌, min, max, ◌≡◌, refl, sym, ap, ◌∙◌, arith, ◌&&◌, ltb,
  ◌==◌, Bool-cases, if◌then◌else◌, List, [], ◌∷◌, ◌++◌, length, length-append, get_elem?, take,
  drop, append-nil, append_assoc, length-drop, some, ◌⊎◌, inl, inr,
}
use native.Mathlib.Nat.{add-zero}
use go_smsc_simulator.Recorder.{
  RecordedPdu, Filter, Recorder, new, append, matches, read, take_one, snapshot_loop, oldest,
  snapshot, len,
}
use go_smsc_simulator.Recorder.Ring.{IsRing, stamped, append-IsRing, new-IsRing}

unfoldable pub keep_matching : Filter → List RecordedPdu → List RecordedPdu
keep_matching f [] = []
keep_matching f (x ∷ xs) = let rest = keep_matching f xs in if matches f x then x ∷ rest else rest

-- The first `limit - taken` records, or all of them without a limit.
abbrev pub limited : ℕ → ℕ → List RecordedPdu → List RecordedPdu
limited limit taken xs = if limit == 0 then xs else take (limit - taken) xs

-- What a reader expects of a journal with this history that retains `cap` records.
unfoldable pub expected : ℕ → List RecordedPdu → Filter → List RecordedPdu
expected cap history f =
    limited f.limit 0 (keep_matching f (drop (max (length history - cap) f.since) history))

take_none : (n : ℕ) → take {A = RecordedPdu} n [] ≡ []
take_none zero = refl
take_none (suc n) = refl

take_last : (n : ℕ) (x : RecordedPdu) (xs : List RecordedPdu) → n ≡ 1 → take n (x ∷ xs) ≡ x ∷ []
take_last n x xs e = rw e

take_more :
    (n m : ℕ) (x : RecordedPdu) (xs : List RecordedPdu)
    → n ≡ suc m
    → take n (x ∷ xs) ≡ x ∷ take m xs
take_more n m x xs e = rw e

limited_one :
    (f : Filter) (taken : ℕ) (x : RecordedPdu) (xs : List RecordedPdu)
    → ((f.limit ≡ 0) ⊎ (taken < f.limit))
    → limited f.limit taken (x ∷ xs) ≡ take_one f taken x (limited f.limit (taken + 1) xs)
limited_one f taken x xs h = ground (
  arith,
  take_last (f.limit - taken) x xs,
  take_more (f.limit - taken) (f.limit - (taken + 1)) x xs,
)

-- After a break the rounds that follow do not matter.
take_one_same :
    (f : Filter) (taken : ℕ) (x : RecordedPdu) (xs ys : List RecordedPdu)
    → ((f.limit ≡ 0) ⊎ (taken < f.limit))
    → (((f.limit ≡ 0) ⊎ (taken + 1 < f.limit)) → xs ≡ ys)
    → take_one f taken x xs ≡ take_one f taken x ys
take_one_same f taken x xs ys l h = elim (Bool-cases (ltb 0 f.limit && taken + 1 == f.limit)) [
  | inl e ↦ rw e
  | inr e ↦ rw e (ap (◌∷◌ x) (h (ground arith)))
]

snapshot_loop-limited :
    (r : Recorder) (f : Filter) (xs : List RecordedPdu) (i taken : ℕ)
    → ((k : ℕ) → k < length xs → get_elem? xs k ≡ some (read r (i + k)))
    → ((f.limit ≡ 0) ⊎ (taken < f.limit))
    → snapshot_loop (length xs) r f i taken ≡ limited f.limit taken (keep_matching f xs)
unfolding snapshot_loop keep_matching
snapshot_loop-limited r f [] i taken h l = ground (arith, take_none (f.limit - taken))
snapshot_loop-limited r f (x ∷ xs) i taken h l =
    let here : x ≡ read r i = cc (h 0 (omega arith), add-zero i) in
    let there : (k : ℕ) → k < length xs → get_elem? xs k ≡ some (read r (i + 1 + k)) =
      λ k lt. h (suc k) (omega arith) ∙ ap (λ n. some (read r n)) (omega arith) in
    elim (Bool-cases (matches f x)) [
      | inl e ↦
          rw (← here, e)
            (take_one_same f taken x (snapshot_loop (length xs) r f (i + 1) (taken + 1)) _ l
                (λ l'. snapshot_loop-limited r f xs (i + 1) (taken + 1) there l')
              ∙ sym (limited_one f taken x (keep_matching f xs) l))
      | inr e ↦ rw (← here, e) (snapshot_loop-limited r f xs (i + 1) taken there l)
    ]

get_elem?-drop :
    (n : ℕ) (xs : List RecordedPdu) (k : ℕ) → get_elem? (drop n xs) k ≡ get_elem? xs (n + k)
get_elem?-drop zero xs k = ap (get_elem? xs) (omega arith)
get_elem?-drop (suc n) [] k = refl
get_elem?-drop (suc n) (x ∷ xs) k =
    get_elem?-drop n xs k ∙ ap (get_elem? (x ∷ xs)) {x = suc (n + k)} (omega arith)

some_in_range :
    (xs : List RecordedPdu) (i : ℕ) → i < length xs → (x : RecordedPdu) × (get_elem? xs i ≡ some x)
some_in_range [] i h = elim h [ ]
some_in_range (x ∷ xs) zero h = (x, refl)
some_in_range (x ∷ xs) (suc i) h = some_in_range xs i (omega arith)

read-kept :
    (r : Recorder) (history : List RecordedPdu) (i : ℕ)
    → IsRing r history
    → i < length history
    → length history ≤ i + r.cap_n
    → get_elem? history i ≡ some (read r i)
read-kept r history i v h k =
    let (x, e) = some_in_range history i h in
    let same : get_elem? r.ring (i % r.cap_n) ≡ some x = v.kept i h k ∙ e in ground (arith, e, same)

-- A snapshot returns the matching records among those retained, oldest first, up to the limit.
pub snapshot-expected :
    (r : Recorder) (history : List RecordedPdu) (f : Filter)
    → IsRing r history
    → snapshot r f ≡ expected r.cap_n history f
unfolding snapshot expected oldest
snapshot-expected r history f v =
    let start = max (oldest r) f.since in
    let e : start ≡ max (length history - r.cap_n) f.since = ground (arith, v.total) in
    rw (← e) (
      ap (λ n. snapshot_loop n r f start 0) (omega (arith, v.total, length-drop start history))
      ∙ snapshot_loop-limited r f (drop start history) start 0
          (λ k lt.
            get_elem?-drop start history k
            ∙ read-kept r history (start + k) v (omega (arith, length-drop start history))
                (omega (arith, e)))
          (omega arith))

pub append_all : Recorder → List RecordedPdu → Recorder
append_all r [] = r
append_all r (p ∷ ps) = append_all (append r p) ps

-- The records with the indexes that they are assigned.
unfoldable pub indexed : ℕ → List RecordedPdu → List RecordedPdu
indexed n [] = []
indexed n (p ∷ ps) = record p { index = n } ∷ indexed (n + 1) ps

append_all-IsRing :
    (r : Recorder) (history ps : List RecordedPdu)
    → IsRing r history
    → length history + length ps < 2 ^ 64
    → IsRing (append_all r ps) (history ++ indexed (length history) ps)
unfolding append_all indexed
append_all-IsRing r history [] v h = rw append-nil v
append_all-IsRing r history (p ∷ ps) v h =
    let n = length-append history (stamped history p ∷ []) in
    let one : length (history ++ stamped history p ∷ []) ≡ length history + 1 = omega (arith, n) in
    rw
      (
        append_assoc history (stamped history p ∷ [])
            (indexed (length (history ++ stamped history p ∷ [])) ps),
        one,
      )
      at
      (append_all-IsRing (append r p) (history ++ stamped history p ∷ []) ps
        (append-IsRing r history p v (omega arith)) (omega (arith, n)))

pub length-indexed : (n : ℕ) (ps : List RecordedPdu) → length (indexed n ps) ≡ length ps
unfolding indexed
length-indexed n [] = refl
length-indexed n (p ∷ ps) = ap suc (length-indexed (n + 1) ps)

cap_n-append_all : (r : Recorder) (ps : List RecordedPdu) → (append_all r ps).cap_n ≡ r.cap_n
unfolding append_all append
cap_n-append_all r [] = refl
cap_n-append_all r (p ∷ ps) = cap_n-append_all (append r p) ps

cap_n-new : (capacity : ℕ) → (new capacity).cap_n ≡ max capacity 1
unfolding new
cap_n-new capacity = ground arith

-- The journal of a virtual SMSC, from its creation on: after fewer than 2^64 appended records a
-- snapshot is what the history promises of a journal of that capacity (1 at least), and `Len`
-- counts what is retained.
pub snapshot-append_all :
    (capacity : ℕ) (ps : List RecordedPdu) (f : Filter)
    → length ps < 2 ^ 64
    → (snapshot (append_all (new capacity) ps) f ≡ expected (max capacity 1) (indexed 0 ps) f)
      × (len (append_all (new capacity) ps) ≡ min (length ps) (max capacity 1))
unfolding len
snapshot-append_all capacity ps f h =
    let v = append_all-IsRing (new capacity) [] ps (new-IsRing capacity) (omega arith) in
    let cap : (append_all (new capacity) ps).cap_n ≡ max capacity 1 =
      cap_n-append_all (new capacity) ps ∙ cap_n-new capacity in
    (
      snapshot-expected (append_all (new capacity) ps) (indexed 0 ps) f v
          ∙ ap (λ c. expected c (indexed 0 ps) f) cap,
      v.size ∙ omega (arith, cap, length-indexed 0 ps),
    )
