-- ===== src/Observability/Pages.antt =====
-- internal/observability/inspect_handlers.go: one page of a journal, and where it ends.
use go_smsc_simulator.Common.{
  ℕ, zero, suc, ◌+◌, ◌-◌, ◌≤◌, ◌<◌, ◌≡◌, refl, sym, ap, ◌∙◌, subst, arith, ltb, Bool-cases,
  Option-cases, some, List, [], ◌∷◌, ◌++◌, length, take, drop, if◌then◌else◌, inl, inr,
}
use go_smsc_simulator.Recorder.{RecordedPdu, Filter, Recorder, matches, snapshot}
use go_smsc_simulator.Recorder.Snapshot.{keep_matching, indexed}
use go_smsc_simulator.Observability.{atoi_positive, max_pdu_page, page_limit}

atoi_positive-pos : (s : List ℕ) (v : ℕ) → atoi_positive s ≡ some v → 0 < v
unfolding atoi_positive
atoi_positive-pos s v h = ground arith

pub page_limit_bounds : (s : List ℕ) → (0 < page_limit s) × (page_limit s ≤ 1000)
unfolding max_pdu_page page_limit
page_limit_bounds s = elim (Option-cases (atoi_positive s)) [
  | inl e ↦ rw (e, page_limit) (omega arith, omega arith)
  | inr (v, e) ↦ let p = atoi_positive-pos s v e in rw (e, page_limit) (ground arith, ground arith)
]

abbrev pub last_index : ℕ → List RecordedPdu → ℕ
last_index d [] = d
last_index d (x ∷ xs) = last_index x.index xs

abbrev pub page_filter : List ℕ → List ℕ → List ℕ → ℕ → Filter
page_filter source dest limit since = record {
  source_addr = source;
  dest_addr = dest;
  since = since;
  limit = page_limit limit;
}

abbrev pub all_filter : List ℕ → List ℕ → ℕ → Filter
all_filter source dest since = record {
  source_addr = source;
  dest_addr = dest;
  since = since;
  limit = 0;
}

-- The pages that a client reads: a page that is not full is the last one.
unfoldable pub fetch : ℕ → Recorder → List ℕ → List ℕ → List ℕ → ℕ → List (List RecordedPdu)
fetch zero r source dest limit since = []
fetch (suc fuel) r source dest limit since =
    let page = snapshot r (page_filter source dest limit since) in
    let more = fetch fuel r source dest limit (last_index 0 page + 1) in
    if ltb (length page) (page_limit limit) then page ∷ [] else page ∷ more

abbrev pub concat : List (List RecordedPdu) → List RecordedPdu
concat [] = []
concat (xs ∷ xss) = xs ++ concat xss

pub keep_same :
    (f g : Filter) (xs : List RecordedPdu)
    → f.source_addr ≡ g.source_addr
    → f.dest_addr ≡ g.dest_addr
    → keep_matching f xs ≡ keep_matching g xs
unfolding keep_matching matches
keep_same f g [] s d = refl
keep_same f g (x ∷ xs) s d = rw (s, d, keep_same f g xs s d)

pub drop-indexed :
    (k n : ℕ) (ps : List RecordedPdu) → drop k (indexed n ps) ≡ indexed (n + k) (drop k ps)
unfolding indexed
drop-indexed zero n ps = ap (λ m. indexed m ps) (omega arith)
drop-indexed (suc k) n [] = refl
drop-indexed (suc k) n (p ∷ ps) =
    drop-indexed k (n + 1) ps ∙ ap (λ m. indexed m (drop k ps)) (omega arith)

pub drop_nil : (n : ℕ) → drop {A = RecordedPdu} n [] ≡ []
drop_nil zero = refl
drop_nil (suc n) = refl

pub drop-drop : (a b : ℕ) (xs : List RecordedPdu) → drop a (drop b xs) ≡ drop (b + a) xs
drop-drop a zero xs = ap (λ n. drop n xs) (omega arith)
drop-drop a (suc b) [] = drop_nil a ∙ sym (drop_nil (suc b + a))
drop-drop a (suc b) (x ∷ xs) =
    drop-drop a b xs ∙ ap (λ n. drop n (x ∷ xs)) {x = suc (b + a)} (omega arith)

shifted :
    (j n : ℕ) (y : RecordedPdu) (ys : List RecordedPdu)
    → n < j
    → drop (j + 1 - n) (y ∷ ys) ≡ drop (j + 1 - (n + 1)) ys
shifted j n y ys h = ap (λ m. drop m (y ∷ ys)) {y = suc (j + 1 - (n + 1))} (omega arith)

first_matches :
    (f : Filter) (l n d : ℕ) (x : RecordedPdu) (xs : List RecordedPdu)
    → l < suc (length (keep_matching f (indexed (n + 1) xs)))
    → ((m : ℕ)
        → m < length (keep_matching f (indexed (n + 1) xs))
        → (n + 1 ≤ last_index n (take (suc m) (keep_matching f (indexed (n + 1) xs))))
          × (keep_matching f (
                drop
                  (last_index n (take (suc m) (keep_matching f (indexed (n + 1) xs))) + 1 - (n + 1))
                  (indexed (n + 1) xs))
              ≡ drop (suc m) (keep_matching f (indexed (n + 1) xs))))
    → (n ≤ last_index n (take l (keep_matching f (indexed (n + 1) xs))))
      × (keep_matching f (
            drop
              (last_index n (take l (keep_matching f (indexed (n + 1) xs))) + 1 - n)
              (record x { index = n } ∷ indexed (n + 1) xs))
          ≡ drop l (keep_matching f (indexed (n + 1) xs)))
first_matches f zero n d x xs h ih = (
  omega arith,
  ap (λ m. keep_matching f (drop m (record x { index = n } ∷ indexed (n + 1) xs))) {y = 1}
      (omega arith),
)
first_matches f (suc m) n d x xs h ih =
    let (le, same) = ih m (omega arith) in
    (omega arith, ap (keep_matching f) (shifted _ n _ (indexed (n + 1) xs) (omega arith)) ∙ same)

-- Behind the last record of a full page stand the matching records that the page left.
after_page :
    (f : Filter) (l n d : ℕ) (xs : List RecordedPdu)
    → l < length (keep_matching f (indexed n xs))
    → (n ≤ last_index d (take (suc l) (keep_matching f (indexed n xs))))
      × (keep_matching f (
            drop
              (last_index d (take (suc l) (keep_matching f (indexed n xs))) + 1 - n)
              (indexed n xs))
          ≡ drop (suc l) (keep_matching f (indexed n xs)))
unfolding keep_matching indexed
after_page f l n d [] h = absurd (omega arith)
after_page f l n d (x ∷ xs) h = elim (Bool-cases (matches f (record x { index = n }))) [
  | inl e ↦ rw e (first_matches f l n d x xs (ground arith) (λ m. after_page f m (n + 1) n xs))
  | inr e ↦
      let (le, same) = after_page f l (n + 1) d xs (ground arith) in
      rw e (
        omega arith,
        ap (keep_matching f) (shifted _ n _ (indexed (n + 1) xs) (omega arith)) ∙ same,
      )
]

-- The same of a list that is known to be so indexed.
pub after_page_at :
    (f : Filter) (l n d : ℕ) (hs xs : List RecordedPdu)
    → indexed n xs ≡ hs
    → l < length (keep_matching f hs)
    → (n ≤ last_index d (take (suc l) (keep_matching f hs)))
      × (keep_matching f (drop (last_index d (take (suc l) (keep_matching f hs)) + 1 - n) hs)
          ≡ drop (suc l) (keep_matching f hs))
after_page_at f l n d hs xs e =
    subst
      (λ ys.
        (l < length (keep_matching f ys))
        → (n ≤ last_index d (take (suc l) (keep_matching f ys)))
          × (keep_matching f (drop (last_index d (take (suc l) (keep_matching f ys)) + 1 - n) ys)
              ≡ drop (suc l) (keep_matching f ys)))
      e (after_page f l n d xs)

-- The matching records that a journal holds from an index on.
