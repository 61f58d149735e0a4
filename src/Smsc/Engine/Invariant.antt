-- ===== src/Smsc/Engine/Invariant.antt =====
-- What is true of the engine whatever its goroutines have done: the wait group counts the accept
-- loops and the sessions, and each call is where `quit`, the listeners and the counter let it be.
use go_smsc_simulator.Common.{
  ℕ, zero, suc, ◌+◌, ◌≤◌, ◌<◌, ◌≡◌, refl, subst, arith, Bool, true, false, not, ◌&&◌, ◌||◌, List,
  [], ◌∷◌, length, get_elem?, set, All, All-map, none, some, if◌then◌else◌,
}
use go_smsc_simulator.Smsc.Engine.{
  Serve, uncalled, registering, blocked, joining, returned, Stop, closing, locking, waiting,
  unserved, drained, overran, EngineState, is_uncalled, any_waiting, remove_at,
}

-- The first `k` listeners are closed.
abbrev pub closed_upto : ℕ → List Bool → Bool
closed_upto zero ls = true
closed_upto (suc k) [] = false
closed_upto (suc k) (b ∷ ls) = not b && closed_upto k ls

-- Serve has registered every loop.
abbrev pub is_settled : Serve → Bool
is_settled uncalled = false
is_settled (registering k) = false
is_settled _ = true

abbrev pub ServeOk : EngineState → Serve → Type 0
ServeOk e uncalled = Unit
ServeOk e (registering k) = k ≤ length e.listeners
ServeOk e blocked = Unit
ServeOk e joining = e.quit ≡ true
ServeOk e returned = (e.quit ≡ true) × (e.counter ≡ 0)

abbrev pub StopOk : EngineState → Stop → Type 0
StopOk e (closing k) = closed_upto k e.listeners ≡ true
StopOk e locking = e.quit ≡ true
StopOk e waiting = (e.quit ≡ true) × (is_settled e.serve ≡ true)
StopOk e unserved = e.quit ≡ true
StopOk e drained = (e.quit ≡ true) × (is_settled e.serve ≡ true) × (e.counter ≡ 0)
StopOk e overran = (e.quit ≡ true) × (is_settled e.serve ≡ true)

pub record Sound (e : EngineState) : Type 0 where
  pub counted : e.counter ≡ length e.loops + e.sessions
  pub quit_last : (not e.quit || closed_upto (length e.listeners) e.listeners) ≡ true
  pub serve_ok : ServeOk e e.serve
  pub served : e.serving ≡ not (is_uncalled e.serve)
  pub stops_ok : All (StopOk e) e.stops
  pub once : e.quit_closes ≡ (if e.quit then 1 else 0)
  pub proper : e.misused ≡ false
  pub nonnegative : e.negative ≡ false

-- What a step has to keep of the state for the calls of Shutdown that it does not move.
pub record Keeps (e e' : EngineState) : Type 0 where
  pub upto : (k : ℕ) → closed_upto k e.listeners ≡ true → closed_upto k e'.listeners ≡ true
  pub quit : e.quit ≡ true → e'.quit ≡ true
  pub settled : is_settled e.serve ≡ true → is_settled e'.serve ≡ true
  pub nobody : is_settled e.serve ≡ true → e.counter ≡ 0 → e'.counter ≡ 0

pub StopOk-kept : (e e' : EngineState) (s : Stop) → Keeps e e' → StopOk e s → StopOk e' s
StopOk-kept e e' (closing k) f h = f.upto k h
StopOk-kept e e' locking f h = f.quit h
StopOk-kept e e' waiting f h = (f.quit h.0, f.settled h.1)
StopOk-kept e e' unserved f h = f.quit h
StopOk-kept e e' drained f h = (f.quit h.0, f.settled h.1, f.nobody h.1 h.2)
StopOk-kept e e' overran f h = (f.quit h.0, f.settled h.1)

pub All-kept :
    (e e' : EngineState) (ss : List Stop) → Keeps e e' → All (StopOk e) ss → All (StopOk e') ss
All-kept e e' ss f = All-map ss (λ s. StopOk-kept e e' s f)

pub All-set {ℓ κ} :
    {A : Type ℓ} (P : A → Type κ) (xs : List A) (i : ℕ) (v : A)
    → All P xs
    → P v
    → All P (set xs i v)
All-set P [] i v h p = tt
All-set P (x ∷ xs) zero v (q, h) p = (p, h)
All-set P (x ∷ xs) (suc i) v (q, h) p = (q, All-set P xs i v h p)

pub All-get_elem? {ℓ κ} :
    {A : Type ℓ} (P : A → Type κ) (xs : List A) (i : ℕ) (x : A)
    → All P xs
    → get_elem? xs i ≡ some x
    → P x
All-get_elem? P [] i x h e = absurd (cc e)
All-get_elem? P (y ∷ xs) zero x (q, h) e = subst P (cc e) q
All-get_elem? P (y ∷ xs) (suc i) x (q, h) e = All-get_elem? P xs i x h e

pub get_elem?-lt {ℓ} :
    {A : Type ℓ} (xs : List A) (i : ℕ) (x : A) → get_elem? xs i ≡ some x → i < length xs
get_elem?-lt [] i x e = absurd (cc e)
get_elem?-lt (y ∷ xs) zero x e = omega arith
get_elem?-lt (y ∷ xs) (suc i) x e = omega (arith, get_elem?-lt xs i x e)

pub length-remove_at {ℓ} :
    {A : Type ℓ} (xs : List A) (i : ℕ) → i < length xs → length xs ≡ length (remove_at i xs) + 1
length-remove_at [] i h = elim h [ ]
length-remove_at (x ∷ xs) zero h = omega arith
length-remove_at (x ∷ xs) (suc i) h = omega (arith, length-remove_at xs i (omega arith))

-- Closing a listener keeps the closed ones closed.
pub closed_upto-set :
    (j i : ℕ) (ls : List Bool) → closed_upto j ls ≡ true → closed_upto j (set ls i false) ≡ true
closed_upto-set zero i ls h = refl
closed_upto-set (suc j) i [] h = h
closed_upto-set (suc j) zero (b ∷ ls) h = ground arith
closed_upto-set (suc j) (suc i) (b ∷ ls) h = ground (arith, closed_upto-set j i ls)

pub closed_upto-suc :
    (k : ℕ) (ls : List Bool)
    → closed_upto k ls ≡ true
    → k < length ls
    → closed_upto (suc k) (set ls k false) ≡ true
closed_upto-suc k [] h l = absurd (omega arith)
closed_upto-suc zero (b ∷ ls) h l = refl
closed_upto-suc (suc k) (b ∷ ls) h l = ground (arith, closed_upto-suc k ls)

pub any_waiting-none :
    (e : EngineState) (ss : List Stop)
    → All (StopOk e) ss
    → is_settled e.serve ≡ false
    → any_waiting ss ≡ false
any_waiting-none e [] h u = refl
any_waiting-none e (closing k ∷ ss) (p, h) u = any_waiting-none e ss h u
any_waiting-none e (locking ∷ ss) (p, h) u = any_waiting-none e ss h u
any_waiting-none e (unserved ∷ ss) (p, h) u = any_waiting-none e ss h u
any_waiting-none e (drained ∷ ss) (p, h) u = any_waiting-none e ss h u
any_waiting-none e (waiting ∷ ss) (p, h) u = absurd (cc)
any_waiting-none e (overran ∷ ss) (p, h) u = absurd (cc)

pub guarded :
    (P : EngineState → Type 0) (b : Bool) (e e' : EngineState)
    → (if b then some e else none) ≡ some e'
    → (b ≡ true → P e)
    → P e'
guarded P true e e' h f = subst P (cc h) (f refl)
guarded P false e e' h f = absurd (cc h)

-- Moving one call of Shutdown, while the others keep what they have.
pub moved_stops :
    (e e' : EngineState) (i : ℕ) (s : Stop)
    → Keeps e e'
    → All (StopOk e) e.stops
    → StopOk e' s
    → All (StopOk e') (set e.stops i s)
moved_stops e e' i s f h p = All-set (StopOk e') e.stops i s (All-kept e e' e.stops f h) p

pub ServeOk-kept :
    (e e' : EngineState) (s : Serve)
    → length e.listeners ≡ length e'.listeners
    → (e.quit ≡ true → e'.quit ≡ true)
    → (e.counter ≡ 0 → e'.counter ≡ 0)
    → ServeOk e s
    → ServeOk e' s
ServeOk-kept e e' uncalled n q z h = tt
ServeOk-kept e e' (registering k) n q z h = omega (arith, n)
ServeOk-kept e e' blocked n q z h = tt
ServeOk-kept e e' joining n q z h = q h
ServeOk-kept e e' returned n q z h = (q h.0, z h.1)
