-- ===== src/Rng.antt =====
-- internal/rng/rng.go: how a bind's random source is seeded. Words are uint64.
use go_smsc_simulator.Common.{ℕ, ◌+◌, ◌*◌, ◌/◌, ◌%◌, ◌^◌, ◌<◌, bit_xor, ◌==◌, Bool, List, [], ◌∷◌}

-- math/rand/v2 and float64, as far as the program draws from a source: the generator and the
-- float operations are Go's, and of these only the documented range of Uint64N is relied upon.
pub record Rand : Type 1 where
  pub Source : Type 0
  pub Float : Type 0
  pub new_pcg : ℕ → ℕ → Source
  pub uint64_n : ℕ → Source → ℕ × Source
  pub uint64_n-lt : (n : ℕ) (s : Source) → 0 < n → (uint64_n n s).0 < n
  pub float64 : Source → Float × Source
  pub norm_float64 : Source → Float × Source
  pub one : Float
  pub at_least : Float → Float → Bool
  pub not_positive : Float → Bool
  pub of_uint64 : ℕ → Float
  pub plus : Float → Float → Float
  pub times : Float → Float → Float
  pub round : Float → ℕ

abbrev pub golden_gamma : ℕ
golden_gamma = 0x9E3779B97F4A7C15

abbrev pub mix1 : ℕ
mix1 = 0xBF58476D1CE4E5B9

abbrev pub mix2 : ℕ
mix2 = 0x94D049BB133111EB

unfoldable pub splitmix64 : ℕ → ℕ
splitmix64 x =
    let a = (x + golden_gamma) % 2 ^ 64 in
    let b = bit_xor a (a / 2 ^ 30) * mix1 % 2 ^ 64 in
    let c = bit_xor b (b / 2 ^ 27) * mix2 % 2 ^ 64 in bit_xor c (c / 2 ^ 31)

-- hash/fnv, New64a: the running hash after the given octets.
unfoldable pub fnv64a : ℕ → List ℕ → ℕ
fnv64a h [] = h
fnv64a h (b ∷ bs) = fnv64a (bit_xor h b * 0x100000001b3 % 2 ^ 64) bs

unfoldable pub derive_seed : ℕ → List ℕ → ℕ → ℕ × ℕ
unfolding fnv64a splitmix64
derive_seed seed smsc_id ordinal =
    let name_hash = fnv64a 0xcbf29ce484222325 smsc_id in
    let lo = splitmix64 (bit_xor seed name_hash) in
    (lo, splitmix64 ((lo + golden_gamma * ordinal + 1) % 2 ^ 64))

abbrev pub schedule_salt : ℕ
schedule_salt = 0x5350_4C49_5401

unfoldable pub schedule_base : ℕ → List ℕ → ℕ → ℕ
unfolding derive_seed
schedule_base seed smsc_id ordinal =
    let (lo, hi) = derive_seed (bit_xor seed schedule_salt) smsc_id ordinal in
    splitmix64 ((lo + hi) % 2 ^ 64)

-- `x & 1 == 0`: the lowest bit.
unfoldable pub schedule_coin : ℕ → ℕ → Bool
unfolding splitmix64
schedule_coin base tick = splitmix64 ((base + splitmix64 tick) % 2 ^ 64) % 2 == 0

unfoldable pub new_bind : (R : Rand) → ℕ → List ℕ → ℕ → R.Source
unfolding derive_seed
new_bind R seed smsc_id ordinal = let (lo, hi) = derive_seed seed smsc_id ordinal in R.new_pcg lo hi
