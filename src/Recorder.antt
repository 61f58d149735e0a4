-- ===== src/Recorder.antt =====
-- internal/recorder/recorder.go: the bounded journal of received submit_sm PDUs. The lock makes
-- each operation one step on this state.
pub mod Ring
pub mod Snapshot
use go_smsc_simulator.Common.{
  ℕ, zero, suc, ◌+◌, ◌-◌, ◌%◌, ◌^◌, max, ltb, ◌==◌, Bool, not, ◌&&◌, ◌||◌, List, [], ◌∷◌, length,
  get_elem?, set, replicate, if◌then◌else◌, Option, none, some, bytes_eq,
}

pub record RecordedPdu : Type 0 where
  pub index : ℕ
  pub message_id : List ℕ
  pub source_addr : List ℕ
  pub source_ton : ℕ
  pub source_npi : ℕ
  pub dest_addr : List ℕ
  pub dest_ton : ℕ
  pub dest_npi : ℕ
  pub data_coding : ℕ
  pub short_message : List ℕ
  pub per_bind_clock : ℕ

-- `limit` is a Go int; the model keeps "not positive" as 0.
pub record Filter : Type 0 where
  pub source_addr : List ℕ
  pub dest_addr : List ℕ
  pub since : ℕ
  pub limit : ℕ

pub record Recorder : Type 0 where
  pub ring : List RecordedPdu
  pub cap_n : ℕ
  pub total : ℕ
  pub size : ℕ

-- Go's zero value, which fills the ring at first.
abbrev pub zero_pdu : RecordedPdu
zero_pdu = record {
  index = 0;
  message_id = [];
  source_addr = [];
  source_ton = 0;
  source_npi = 0;
  dest_addr = [];
  dest_ton = 0;
  dest_npi = 0;
  data_coding = 0;
  short_message = [];
  per_bind_clock = 0;
}

unfoldable pub new : ℕ → Recorder
new capacity =
    let cap = if ltb capacity 1 then 1 else capacity in
    record { ring = replicate cap zero_pdu; cap_n = cap; total = 0; size = 0 }

unfoldable pub append : Recorder → RecordedPdu → Recorder
append r p = record {
  ring = set r.ring (r.total % r.cap_n) (record p { index = r.total });
  cap_n = r.cap_n;
  total = (r.total + 1) % 2 ^ 64;
  size = if ltb r.size (length r.ring) then r.size + 1 else r.size;
}

-- The two `continue` tests.
unfoldable pub matches : Filter → RecordedPdu → Bool
matches f rec =
    (length f.source_addr == 0 || bytes_eq rec.source_addr f.source_addr)
    && (length f.dest_addr == 0 || bytes_eq rec.dest_addr f.dest_addr)

-- A read of the ring. The index is reduced by `cap_n`, so it is never out of range.
abbrev pub read : Recorder → ℕ → RecordedPdu
read r i = elim (get_elem? r.ring (i % r.cap_n)) [ none ↦ zero_pdu | some p ↦ p ]

-- What `append(out, rec)` and the break make of one round, given the rounds that follow.
abbrev pub take_one : Filter → ℕ → RecordedPdu → List RecordedPdu → List RecordedPdu
take_one f taken rec rest = if ltb 0 f.limit && taken + 1 == f.limit then rec ∷ [] else rec ∷ rest

-- The loop of `Snapshot` from index `i`, with `rounds` left; `taken` is `len(out)`.
unfoldable pub snapshot_loop : ℕ → Recorder → Filter → ℕ → ℕ → List RecordedPdu
snapshot_loop zero r f i taken = []
snapshot_loop (suc rounds) r f i taken =
    let keep = take_one f taken (read r i) (snapshot_loop rounds r f (i + 1) (taken + 1)) in
    let skip = snapshot_loop rounds r f (i + 1) taken in if matches f (read r i) then keep else skip

unfoldable pub oldest : Recorder → ℕ
oldest r = if ltb r.cap_n r.total then r.total - r.cap_n else 0

unfoldable pub snapshot : Recorder → Filter → List RecordedPdu
snapshot r f = let start = max (oldest r) f.since in snapshot_loop (r.total - start) r f start 0

unfoldable pub len : Recorder → ℕ
len r = r.size
