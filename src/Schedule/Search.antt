-- ===== src/Schedule/Search.antt =====
-- sort.Search over a list that a test splits in two.
use go_smsc_simulator.Common.{
  ℕ, zero, suc, ◌+◌, ◌/◌, ◌≤◌, ◌<◌, ◌≡◌, arith, Bool, true, false, List, [], ◌∷◌, ◌++◌, length,
  length-append, All,
}
use go_smsc_simulator.Schedule.{Event, search_loop, search, at}

-- The test fails below `m` and holds from `m` on, so the loop ends at `m`.
search_loop-boundary :
    (fuel : ℕ) (test : ℕ → Bool) (m n i j : ℕ)
    → ((k : ℕ) → k < m → test k ≡ false)
    → ((k : ℕ) → m ≤ k → k < n → test k ≡ true)
    → i ≤ m
    → m ≤ j
    → j ≤ n
    → j ≤ i + fuel
    → search_loop fuel test i j ≡ m
unfolding search_loop
search_loop-boundary zero test m n i j below above a b c d = omega arith
search_loop-boundary (suc fuel) test m n i j below above a b c d = ground (
  arith,
  below ((i + j) / 2),
  above ((i + j) / 2),
  search_loop-boundary fuel test m n i ((i + j) / 2) below above,
  search_loop-boundary fuel test m n ((i + j) / 2 + 1) j below above,
)

module _ {ℓ} {A : Type ℓ} (test : Event A → Bool) where
  abbrev Fails : Event A → Type 0
  Fails e = test e ≡ false

  abbrev Holds : Event A → Type 0
  Holds e = test e ≡ true

  at-front :
      (front back : List (Event A)) (k : ℕ)
      → All Fails front
      → k < length front
      → at test (front ++ back) k ≡ false
  at-front [] back k h lt = elim lt [ ]
  at-front (e ∷ front) back zero (p, h) lt = p
  at-front (e ∷ front) back (suc k) (p, h) lt = at-front front back k h (omega arith)

  at-All :
      (back : List (Event A)) (k : ℕ) → All Holds back → k < length back → at test back k ≡ true
  at-All [] k h lt = elim lt [ ]
  at-All (e ∷ back) zero (p, h) lt = p
  at-All (e ∷ back) (suc k) (p, h) lt = at-All back k h (omega arith)

  at-back :
      (front back : List (Event A)) (k : ℕ)
      → All Holds back
      → length front ≤ k
      → k < length (front ++ back)
      → at test (front ++ back) k ≡ true
  at-back [] back k h le lt = at-All back k h lt
  at-back (e ∷ front) back zero h le lt = elim le [ ]
  at-back (e ∷ front) back (suc k) h le lt = at-back front back k h (omega arith) (omega arith)

  -- The binary search finds the place where the list is split.
  pub search-split :
      (front back : List (Event A))
      → All Fails front
      → All Holds back
      → search (length (front ++ back)) (at test (front ++ back)) ≡ length front
  unfolding search
  search-split front back f b =
      search_loop-boundary (length (front ++ back)) (at test (front ++ back)) (length front)
        (length (front ++ back)) 0 (length (front ++ back)) (λ k lt. at-front front back k f lt)
        (λ k le lt. at-back front back k b le lt) (omega arith)
        (omega (arith, length-append front back)) (omega arith) (omega arith)
