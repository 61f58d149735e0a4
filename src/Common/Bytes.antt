-- ===== src/Common/Bytes.antt =====
-- Go strings: lists of octets, compared octet by octet.
use go_smsc_simulator.Common.Tests.{◌==◌, ltb, if◌then◌else◌}
use Prim.Native.Nat.{ℕ}
use mathlib.Core.Path.{◌≡◌, refl}
use mathlib.Core.Bool.{Bool, true, false, ◌&&◌}
use mathlib.Core.List.{List, [], ◌∷◌}
use native.Mathlib.Omega.{arith}
use Prim.Native.Char.{code}
use Prim.Native.String.{String}

unfoldable pub bytes_eq : List ℕ → List ℕ → Bool
bytes_eq [] [] = true
bytes_eq [] (b ∷ bs) = false
bytes_eq (a ∷ as') [] = false
bytes_eq (a ∷ as') (b ∷ bs) = a == b && bytes_eq as' bs

pub bytes_eq_refl : (s : List ℕ) → bytes_eq s s ≡ true
unfolding bytes_eq
bytes_eq_refl [] = refl
bytes_eq_refl (b ∷ s) = ground (arith, bytes_eq_refl s)

pub bytes_eq→eq : (s t : List ℕ) → bytes_eq s t ≡ true → s ≡ t
unfolding bytes_eq
bytes_eq→eq [] [] h = refl
bytes_eq→eq [] (b ∷ t) h = ground arith
bytes_eq→eq (a ∷ s) [] h = ground arith
bytes_eq→eq (a ∷ s) (b ∷ t) h = ground (arith, bytes_eq→eq s t)

-- Go's order on strings: the first octet that differs, then the length.
unfoldable pub bytes_lt : List ℕ → List ℕ → Bool
bytes_lt s [] = false
bytes_lt [] (b ∷ t) = true
bytes_lt (a ∷ s) (b ∷ t) = let rest = bytes_lt s t in if a == b then rest else ltb a b

-- The octets of an ASCII text.
abbrev pub codes : String → List ℕ
codes String.[] = []
codes (String.◌∷◌ c s) = code c ∷ codes s

pub bytes_lt_trans :
    (a b c : List ℕ) → bytes_lt a b ≡ true → bytes_lt b c ≡ true → bytes_lt a c ≡ true
unfolding bytes_lt
bytes_lt_trans a b [] h k = cc
bytes_lt_trans a [] (z ∷ c) h k = ground arith
bytes_lt_trans [] (y ∷ b) (z ∷ c) h k = refl
bytes_lt_trans (x ∷ a) (y ∷ b) (z ∷ c) h k = ground (arith, bytes_lt_trans a b c)

pub bytes_lt_asymm : (a b : List ℕ) → bytes_lt a b ≡ true → bytes_lt b a ≡ false
unfolding bytes_lt
bytes_lt_asymm [] b h = refl
bytes_lt_asymm (x ∷ a) [] h = cc
bytes_lt_asymm (x ∷ a) (y ∷ b) h = ground (arith, bytes_lt_asymm a b)

pub bytes_lt_connex : (a b : List ℕ) → bytes_lt a b ≡ false → bytes_lt b a ≡ false → a ≡ b
unfolding bytes_lt
bytes_lt_connex [] [] h k = refl
bytes_lt_connex [] (y ∷ b) h k = cc
bytes_lt_connex (x ∷ a) [] h k = cc
bytes_lt_connex (x ∷ a) (y ∷ b) h k = ground (arith, bytes_lt_connex a b)
