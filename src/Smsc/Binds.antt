-- ===== src/Smsc/Binds.antt =====
-- internal/smsc/binds.go: the registry of the bound sessions. The map is a list of the binds, in
-- the order of one iteration over it; `connectedAt`, which only the operator sees, is left out.
use go_smsc_simulator.Common.{
  ℕ, ltb, ◌==◌, Bool, true, false, not, ◌&&◌, ◌||◌, List, [], ◌∷◌, length, if◌then◌else◌,
}

pub record BindInfo : Type 0 where
  pub id : ℕ
  pub system_id : List ℕ
  pub bind_type : List ℕ

unfoldable pub remove : ℕ → List BindInfo → List BindInfo
remove id [] = []
remove id (b ∷ bs) = let rest = remove id bs in if b.id == id then rest else b ∷ rest

-- A write to the map replaces the entry of that id.
unfoldable pub add : BindInfo → List BindInfo → List BindInfo
add b bs = b ∷ remove b.id bs

unfoldable pub count : List BindInfo → ℕ
count bs = length bs

unfoldable pub has : ℕ → List BindInfo → Bool
has id [] = false
has id (b ∷ bs) = b.id == id || has id bs

unfoldable pub none_below : ℕ → List BindInfo → Bool
none_below id [] = true
none_below id (b ∷ bs) = not (ltb b.id id) && none_below id bs

unfoldable pub is_oldest : ℕ → List BindInfo → Bool
is_oldest id bs = none_below id bs && has id bs
