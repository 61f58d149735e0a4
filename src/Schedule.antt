-- ===== src/Schedule.antt =====
-- internal/schedule/schedule.go: the Schedule Runner of one bind. A payload is opaque, so the
-- runner is generic in its type. Ticks and sequence numbers are uint64.
pub mod Search
pub mod Order
pub mod Drain
pub mod History
use go_smsc_simulator.Common.{
  ℕ, zero, suc, ◌+◌, ◌/◌, ◌%◌, ◌^◌, ltb, ◌==◌, Bool, true, false, ◌&&◌, ◌||◌, List, [], ◌∷◌, ◌++◌,
  length, take, drop, get_elem?, if◌then◌else◌, Option, none, some,
}

pub record Event {ℓ} (A : Type ℓ) : Type ℓ where
  pub due_tick : ℕ
  pub seq : ℕ
  pub payload : A

pub record Runner {ℓ} (A : Type ℓ) : Type ℓ where
  pub pending : List (Event A)
  pub seq : ℕ

-- The loop of sort.Search: the smallest index in [i, j) at which `test` holds, by halving.
unfoldable pub search_loop : ℕ → (ℕ → Bool) → ℕ → ℕ → ℕ
search_loop zero test i j = i
search_loop (suc fuel) test i j =
    let h = (i + j) / 2 in
    let found : ℕ = elim (test h) [
      | true ↦ search_loop fuel test i h
      | false ↦ search_loop fuel test (h + 1) j
    ] in
    if ltb i j then found else i

-- Each round shortens the interval, so its length bounds the rounds.
unfoldable pub search : ℕ → (ℕ → Bool) → ℕ
search n test = search_loop n test 0 n

module _ {ℓ} {A : Type ℓ} where
  -- A test on the item at an index. The search stays inside the slice, where Go cannot panic.
  abbrev pub at : (Event A → Bool) → List (Event A) → ℕ → Bool
  at test xs i = elim (get_elem? xs i) [ none ↦ false | some e ↦ test e ]

  -- `p.DueTick > e.DueTick || (p.DueTick == e.DueTick && p.Seq > e.Seq)`
  abbrev pub sorts_after : Event A → Event A → Bool
  sorts_after e p = ltb e.due_tick p.due_tick || p.due_tick == e.due_tick && ltb e.seq p.seq

  abbrev pub is_later : ℕ → Event A → Bool
  is_later clock p = ltb clock p.due_tick

  -- The append, the shifting copy and the write at index `i`.
  unfoldable pub insert_at : ℕ → Event A → List (Event A) → List (Event A)
  insert_at i e xs = take i xs ++ e ∷ drop i xs

  pub empty : Runner A
  empty = record { pending = []; seq = 0 }

  abbrev pub event_of : Runner A → ℕ → A → Event A
  event_of r due payload = record { due_tick = due; seq = r.seq; payload = payload }

  unfoldable pub schedule : Runner A → ℕ → A → Runner A
  schedule r due payload =
      let e = event_of r due payload in
      let i = search (length r.pending) (at (sorts_after e) r.pending) in
      record { pending = insert_at i e r.pending; seq = (r.seq + 1) % 2 ^ 64 }

  -- The released events, and the runner without them. A nil slice is the empty list.
  unfoldable pub drain_due : Runner A → ℕ → List (Event A) × Runner A
  drain_due r clock =
      let n = search (length r.pending) (at (is_later clock) r.pending) in
      if n == 0 then ([], r) else (take n r.pending, record r { pending = drop n r.pending })

  unfoldable pub drain_all : Runner A → List (Event A) × Runner A
  drain_all r = (r.pending, record r { pending = [] })

  unfoldable pub len : Runner A → ℕ
  len r = length r.pending
