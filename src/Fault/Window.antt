-- ===== src/Fault/Window.antt =====
-- The throughput cap: how many submits one window lets through.
use go_smsc_simulator.Common.{
  ℕ, suc, ◌+◌, ◌-◌, ◌<◌, ◌≡◌, refl, arith, min, Bool, true, false, List, [], ◌∷◌, length, All, some,
}
use go_smsc_simulator.Fault.{WallWindow, second, window_over, allow}

-- The answers for the submits at the given times, and the gate after them.
unfoldable pub allow_all : WallWindow → List ℕ → List Bool × WallWindow
allow_all g [] = ([], g)
allow_all g (t ∷ ts) = let (b, g') = allow g t in let (bs, g'') = allow_all g' ts in (b ∷ bs, g'')

abbrev pub allowed : List Bool → ℕ
allowed [] = 0
allowed (true ∷ bs) = suc (allowed bs)
allowed (false ∷ bs) = allowed bs

-- A time in the window that began at `start`.
abbrev pub Within : ℕ → ℕ → Type 0
Within start t = t < start + second

-- In one window: exactly the submits up to the cap are allowed, and no other.
allow_all-Within :
    (g : WallWindow) (start : ℕ) (ts : List ℕ)
    → g.window_start ≡ some start
    → All (Within start) ts
    → (allowed (allow_all g ts).0 ≡ min (length ts) (g.cap_per_sec - g.count))
      × ((allow_all g ts).1.window_start ≡ some start)
unfolding allow_all allow
allow_all-Within g start [] e h = (omega arith, e)
allow_all-Within g start (t ∷ ts) e (w, h) =
    ground (arith, allow_all-Within (record g { count = g.count + 1 }) start ts e h)

-- Of a submit that opens a window and those that follow within its second, as many are allowed
-- as the cap says, or all if they are fewer.
pub allow_window :
    (g : WallWindow) (t : ℕ) (ts : List ℕ)
    → window_over g.window_start t ≡ true
    → All (Within t) ts
    → allowed (allow_all g (t ∷ ts)).0 ≡ min (suc (length ts)) g.cap_per_sec
unfolding allow_all allow
allow_window g t ts opens h =
    ground (arith, allow_all-Within (record g { window_start = some t; count = 1 }) t ts refl h)
