-- ===== src/Config/Faults.antt =====
-- internal/config/validate.go: the sentinel errors, and how the checks gather them. An error keeps
-- its sentinel and the .yml field that its message names.
use go_smsc_simulator.Common.{
  ◌≡◌, refl, Bool, true, false, List, [], ◌∷◌, ◌++◌, All, Option, none, some,
}
use Prim.Native.String.{String}

pub data Sentinel : Type 0 where
  unknown_profile seeded_throughput_limit duplicate_port param_out_of_bounds unknown_to_profile
        param_not_exposed missing_param invalid_enum invalid_address_range tls_cert_key_mismatch
        tls_cert_not_found tls_cert_without_enabled :
      Sentinel

pub record Fault : Type 0 where
  pub sentinel : Sentinel
  pub field : String

abbrev pub fault : Sentinel → String → List Fault
fault s f = record { sentinel = s; field = f } ∷ []

-- `if test { errs = append(errs, …) }`
abbrev pub fault_if : Bool → Sentinel → String → List Fault
fault_if true s f = fault s f
fault_if false s f = []

-- A check of a pointer that is skipped on nil.
abbrev pub if_set {ℓ} : {A : Type ℓ} → Option A → (A → List Fault) → List Fault
if_set none check = []
if_set (some a) check = check a

abbrev pub each {ℓ} : {A : Type ℓ} → List A → (A → List Fault) → List Fault
each [] check = []
each (a ∷ as') check = check a ++ each as' check

-- No fault in a whole means none in its parts.
pub clean_both : {xs ys : List Fault} → xs ++ ys ≡ [] → (xs ≡ []) × (ys ≡ [])
clean_both {xs = []} h = (refl, h)
clean_both {xs = x ∷ xs} h = absurd (cc h)

pub clean_test : (b : Bool) (s : Sentinel) (f : String) → fault_if b s f ≡ [] → b ≡ false
clean_test true s f h = absurd (cc h)
clean_test false s f h = refl

pub clean_each {ℓ} :
    {A : Type ℓ} (xs : List A) (check : A → List Fault)
    → each xs check ≡ []
    → All (λ x. check x ≡ []) xs
clean_each [] check h = tt
clean_each (x ∷ xs) check h = let (a, b) = clean_both h in (a, clean_each xs check b)
