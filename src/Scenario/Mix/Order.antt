-- ===== src/Scenario/Mix/Order.antt =====
-- The order in which Go iterates over the error mix, and the flattened mix.
use go_smsc_simulator.Common.{
  ℕ, ◌≡◌, refl, ◌∙◌, arith, List, [], ◌∷◌, bytes_lt_trans, bytes_lt_asymm, bytes_lt_connex,
}
use mathlib.Core.List.{Perm, Permᴰ}
use mathlib.Core.Logic.{∥∥₁_elim}
use go_smsc_simulator.Config.Enums.{SmppErrorCode}
use go_smsc_simulator.Scenario.Mix.{insert_code, sort_codes, build_error_mix}

-- Two insertions commute: the order of strings is total.
insert_code_comm :
    (a b : SmppErrorCode) (ds : List SmppErrorCode)
    → insert_code a (insert_code b ds) ≡ insert_code b (insert_code a ds)
unfolding insert_code
insert_code_comm a b [] =
    ground (arith, bytes_lt_asymm a b, bytes_lt_asymm b a, bytes_lt_connex a b)
insert_code_comm a b (d ∷ ds) = ground (
  arith,
  bytes_lt_asymm a b,
  bytes_lt_asymm b a,
  bytes_lt_connex a b,
  bytes_lt_trans a b d,
  bytes_lt_trans b a d,
  insert_code_comm a b ds,
)

sort_codes-Permᴰ : {xs ys : List SmppErrorCode} → Permᴰ xs ys → sort_codes xs ≡ sort_codes ys
unfolding sort_codes
sort_codes-Permᴰ Permᴰ.nil = refl
sort_codes-Permᴰ (Permᴰ.cons e p) = rw (e, sort_codes-Permᴰ p)
sort_codes-Permᴰ (Permᴰ.swap {l = l} e e') = rw (e, e') (insert_code_comm _ _ (sort_codes l))
sort_codes-Permᴰ (Permᴰ.trans p q) = sort_codes-Permᴰ p ∙ sort_codes-Permᴰ q

codes_set : IsSet (List SmppErrorCode)
codes_set = hlevel

pub sort_codes-perm : {xs ys : List SmppErrorCode} → Perm xs ys → sort_codes xs ≡ sort_codes ys
sort_codes-perm {xs} {ys} p =
    ∥∥₁_elim p (codes_set (sort_codes xs) (sort_codes ys)) sort_codes-Permᴰ

-- Two orders of the keys of one map, as two iterations give them, lead to the same flattened mix.
pub build_error_mix-perm :
    (keys keys' : List SmppErrorCode) (weight : SmppErrorCode → ℕ)
    → Perm keys keys'
    → build_error_mix (record { keys = keys; weight = weight })
      ≡ build_error_mix (record { keys = keys'; weight = weight })
unfolding build_error_mix
build_error_mix-perm keys keys' weight p = rw (sort_codes-perm p)
