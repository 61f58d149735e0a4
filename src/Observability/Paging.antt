-- ===== src/Observability/Paging.antt =====
-- internal/observability/inspect_handlers.go over internal/recorder: a client that pages through the
-- journal of a virtual SMSC, each page behind the last record of the one before.
use go_smsc_simulator.Common.{
  ℕ, zero, suc, ◌+◌, ◌-◌, ◌^◌, ◌≤◌, ◌<◌, max, ◌≡◌, refl, sym, ap, ◌∙◌, arith, All, ltb, Bool-cases,
  List, [], ◌∷◌, ◌++◌, length, take, drop, length-take, take-append-drop, take_all, append-nil,
  if_both, inl, inr,
}
use go_smsc_simulator.Recorder.{RecordedPdu, new, snapshot}
use go_smsc_simulator.Recorder.Snapshot.{
  keep_matching, limited, expected, append_all, indexed, snapshot-append_all, length-indexed,
}
use go_smsc_simulator.Observability.{page_limit}
use go_smsc_simulator.Observability.Pages.{
  page_limit_bounds, last_index, page_filter, all_filter, fetch, concat, keep_same, drop-indexed,
  drop_nil, drop-drop, after_page_at,
}

abbrev first_held : ℕ → List RecordedPdu → ℕ → ℕ
first_held cap ps since = max (length (indexed 0 ps) - cap) since

abbrev held : ℕ → List RecordedPdu → List ℕ → List ℕ → ℕ → List RecordedPdu
held cap ps source dest since =
    keep_matching (all_filter source dest since) (drop (first_held cap ps since) (indexed 0 ps))

held_behind :
    (cap : ℕ) (ps : List RecordedPdu) (source dest : List ℕ) (since j : ℕ)
    → first_held cap ps since ≤ j
    → held cap ps source dest (j + 1)
      ≡ keep_matching
          (all_filter source dest since)
          (drop (j + 1 - first_held cap ps since) (drop (first_held cap ps since) (indexed 0 ps)))
held_behind cap ps source dest since j h =
    keep_same (all_filter source dest (j + 1)) (all_filter source dest since) _ refl refl
    ∙ ap (keep_matching (all_filter source dest since)) (
        ap (λ m. drop m (indexed 0 ps)) (omega arith)
        ∙ sym
            (drop-drop (j + 1 - first_held cap ps since) (first_held cap ps since) (indexed 0 ps)))

-- The next page starts behind this one, and what it starts with is what this one left.
held-next :
    (cap : ℕ) (ps : List RecordedPdu) (source dest : List ℕ) (since l : ℕ)
    → l < length (held cap ps source dest since)
    → (since ≤ last_index 0 (take (suc l) (held cap ps source dest since)))
      × (held cap ps source dest (last_index 0 (take (suc l) (held cap ps source dest since)) + 1)
          ≡ drop (suc l) (held cap ps source dest since))
held-next cap ps source dest since l h =
    let start = first_held cap ps since in
    let e : indexed start (drop start ps) ≡ drop start (indexed 0 ps) =
      sym (drop-indexed start 0 ps ∙ ap (λ m. indexed m (drop start ps)) (omega arith)) in
    let (le, same) = after_page_at (all_filter source dest since) l start 0 _ _ e h in
    (omega (arith, le), held_behind cap ps source dest since _ le ∙ same)

limited_pos : (l : ℕ) (xs : List RecordedPdu) → 0 < l → limited l 0 xs ≡ take l xs
limited_pos l xs h = ground (arith, ap (λ n. take n xs) {x = l - 0} {y = l} (omega arith))

full_page :
    (cap : ℕ) (ps : List RecordedPdu) (source dest : List ℕ) (since l : ℕ)
    → 0 < l
    → l ≤ length (held cap ps source dest since)
    → (since ≤ last_index 0 (take l (held cap ps source dest since)))
      × (held cap ps source dest (last_index 0 (take l (held cap ps source dest since)) + 1)
          ≡ drop l (held cap ps source dest since))
full_page cap ps source dest since zero p h = elim p [ ]
full_page cap ps source dest since (suc l) p h = held-next cap ps source dest since l h

drop_over : (n : ℕ) (xs : List RecordedPdu) → length xs ≤ n → drop n xs ≡ []
drop_over n [] h = drop_nil n
drop_over zero (x ∷ xs) h = elim h [ ]
drop_over (suc n) (x ∷ xs) h = drop_over n xs (omega arith)

none_held :
    (cap : ℕ) (ps : List RecordedPdu) (source dest : List ℕ) (since : ℕ)
    → length ps ≤ since
    → held cap ps source dest since ≡ []
unfolding keep_matching
none_held cap ps source dest since h =
    ap (keep_matching (all_filter source dest since))
      (drop_over (first_held cap ps since) (indexed 0 ps) (omega (arith, length-indexed 0 ps)))

-- One request of a page.
page_lem :
    (capacity : ℕ) (ps : List RecordedPdu) (source dest limit : List ℕ) (since : ℕ)
    → length ps < 2 ^ 64
    → snapshot (append_all (new capacity) ps) (page_filter source dest limit since)
      ≡ take (page_limit limit) (held (max capacity 1) ps source dest since)
unfolding expected
page_lem capacity ps source dest limit since small =
    let b = page_limit_bounds limit in
    (snapshot-append_all capacity ps (page_filter source dest limit since) small).0
    ∙ (limited_pos (page_limit limit) _ b.0
        ∙ ap (take (page_limit limit)) (
            keep_same (page_filter source dest limit since) (all_filter source dest since) _ refl
              refl))

fetch_held :
    (fuel : ℕ) (capacity : ℕ) (ps : List RecordedPdu) (source dest limit : List ℕ) (since : ℕ)
    → length ps < 2 ^ 64
    → length ps ≤ since + fuel
    → concat (fetch fuel (append_all (new capacity) ps) source dest limit since)
      ≡ held (max capacity 1) ps source dest since
unfolding fetch
fetch_held zero capacity ps source dest limit since small enough =
    sym (none_held (max capacity 1) ps source dest since (omega arith))
fetch_held (suc fuel) capacity ps source dest limit since small enough =
    let b = page_limit_bounds limit in
    let hs = held (max capacity 1) ps source dest since in
    let n = length-take (page_limit limit) hs in
    rw (page_lem capacity ps source dest limit since small)
      (elim (Bool-cases (ltb (length (take (page_limit limit) hs)) (page_limit limit))) [
        | inl last ↦ rw last (append-nil _ ∙ take_all (page_limit limit) hs (ground arith))
        | inr full ↦ rw full (
            let (le, same) =
              full_page (max capacity 1) ps source dest since (page_limit limit) b.0
                (ground arith) in
            ap (◌++◌ (take (page_limit limit) hs))
              (fetch_held fuel capacity ps source dest limit _ small (omega arith) ∙ same)
            ∙ take-append-drop (page_limit limit) hs)
      ])

all_held :
    (capacity : ℕ) (ps : List RecordedPdu) (source dest : List ℕ) (since : ℕ)
    → length ps < 2 ^ 64
    → snapshot (append_all (new capacity) ps) (all_filter source dest since)
      ≡ held (max capacity 1) ps source dest since
unfolding expected
all_held capacity ps source dest since small =
    (snapshot-append_all capacity ps (all_filter source dest since) small).0

fetch_short :
    (fuel : ℕ) (capacity : ℕ) (ps : List RecordedPdu) (source dest limit : List ℕ) (since : ℕ)
    → length ps < 2 ^ 64
    → All
        (λ (page : List RecordedPdu). length page ≤ 1000)
        (fetch fuel (append_all (new capacity) ps) source dest limit since)
unfolding fetch
fetch_short zero capacity ps source dest limit since small = tt
fetch_short (suc fuel) capacity ps source dest limit since small =
    let hs = held (max capacity 1) ps source dest since in
    let n = length-take (page_limit limit) hs in
    let b = page_limit_bounds limit in
    rw (page_lem capacity ps source dest limit since small) (
      if_both (λ pages. All (λ (page : List RecordedPdu). length page ≤ 1000) pages)
        (ltb (length (take (page_limit limit) hs)) (page_limit limit)) (omega arith, tt)
        (omega arith, fetch_short fuel capacity ps source dest limit _ small))

-- A client that asks for page after page of a journal, each from behind the last record of the one
-- before, with any text for the limit, until a page is not full: after fewer than 2^64 appends, and
-- with as many requests as the indexes from where it starts, it is given every matching record that
-- the journal holds from there on, once and in order, in pages of at most a thousand.
pub fetch_exact :
    (fuel : ℕ) (capacity : ℕ) (ps : List RecordedPdu) (source dest limit : List ℕ) (since : ℕ)
    → length ps < 2 ^ 64
    → length ps ≤ since + fuel
    → (concat (fetch fuel (append_all (new capacity) ps) source dest limit since)
        ≡ snapshot (append_all (new capacity) ps) (all_filter source dest since))
      × All
          (λ (page : List RecordedPdu). length page ≤ 1000)
          (fetch fuel (append_all (new capacity) ps) source dest limit since)
fetch_exact fuel capacity ps source dest limit since small enough = (
  fetch_held fuel capacity ps source dest limit since small enough
      ∙ sym (all_held capacity ps source dest since small),
  fetch_short fuel capacity ps source dest limit since small,
)
