-- ===== src/Config/Accepted/Ports.antt =====
-- internal/config/validate.go: the listen ports of a topology that is accepted.
use go_smsc_simulator.Common.{
  ℤ, pos, negsuc, ◌≤◌, ◌≡◌, ◌≢◌, subst, arith, is_below, is_above, to_nat, eq_int, true, false,
  ◌||◌, List, [], ◌∷◌, map, All, All-map, if◌then◌else◌,
}
use go_smsc_simulator.Rng.{Rand}
use go_smsc_simulator.Config.Schema.{VirtualSmscConfig, Config}
use go_smsc_simulator.Config.Profiles.{port_min, port_max}
use go_smsc_simulator.Config.Faults.{duplicate_port, param_out_of_bounds, clean_both, clean_test}
use go_smsc_simulator.Config.Topology.{
  Host, validate_numbers, validate_virtual_smsc, seen_port, ports_loop, observability_port,
  validate,
}

eq_int_refl : (p : ℤ) → eq_int p p ≡ true
eq_int_refl (pos n) = ground arith
eq_int_refl (negsuc n) = ground arith

eq_int_false→ne : (p q : ℤ) → eq_int p q ≡ false → p ≢ q
eq_int_false→ne p q h e = absurd (cc (eq_int_refl p, e, h))

abbrev pub Free : List ℤ → ℤ → Type 0
Free seen p = seen_port p seen ≡ false

-- No port is among those behind it.
abbrev pub Distinct : List ℤ → Type 0
Distinct [] = Unit {0}
Distinct (p ∷ ps) = All (λ q. q ≢ p) ps × Distinct ps

-- A port that is free of a longer list is another than its head.
seen_port-ne : (p q : ℤ) (seen : List ℤ) → Free (p ∷ seen) q → (q ≢ p) × Free seen q
seen_port-ne p q seen h = (eq_int_false→ne q p (ground arith), ground arith)

abbrev pub InRange : ℤ → Type 0
InRange p = (1 ≤ to_nat p) × (to_nat p ≤ port_max)

in_range : (p : ℤ) → (is_below p port_min || is_above p port_max) ≡ false → InRange p
in_range (pos n) h = (ground arith, ground arith)
in_range (negsuc n) h = absurd (cc h)

module _ (R : Rand) where
  open R use {Float}

  abbrev pub ports_of : List (VirtualSmscConfig Float) → List ℤ
  ports_of vss = map (λ v. v.port) vss

  port_range :
      (host : Host) (vs : VirtualSmscConfig Float)
      → validate_virtual_smsc R host vs ≡ []
      → InRange vs.port
  unfolding validate_virtual_smsc validate_numbers
  port_range host vs h =
      let numbers = (clean_both h).0 in
      let port = (clean_both (clean_both numbers).1).0 in
      in_range vs.port (clean_test _ param_out_of_bounds "virtual_smscs.port" port)

  -- With the ports in `seen` taken: the ports of the rest are free, distinct and in range.
  ports_loop-clean :
      (host : Host) (seen : List ℤ) (vss : List (VirtualSmscConfig Float))
      → ports_loop R host seen vss ≡ []
      → All (Free seen) (ports_of vss) × Distinct (ports_of vss) × All InRange (ports_of vss)
  unfolding ports_loop
  ports_loop-clean host seen [] h = (tt, tt, tt)
  ports_loop-clean host seen (vs ∷ vss) h =
      let (own, more) = clean_both h in
      let (port, rest) = clean_both more in
      let fresh = clean_test _ duplicate_port "virtual_smscs.port" port in
      let (free, distinct, range) =
        ports_loop-clean host (vs.port ∷ seen) vss (
          subst (λ b. ports_loop R host (if b then seen else vs.port ∷ seen) vss ≡ []) fresh
            rest) in
      let split = All-map (ports_of vss) (λ q. seen_port-ne vs.port q seen) free in
      (
        (fresh, All-map (ports_of vss) (λ q h. h.1) split),
        (All-map (ports_of vss) (λ q h. h.0) split, distinct),
        (port_range host vs own, range),
      )

  -- In a topology that validation accepts, the listen ports of the virtual SMSCs lie between 1 and
  -- 65535, no two are equal, and none is the port of the HTTP surface unless that is 0.
  pub validate_ports :
      (host : Host) (cfg : Config Float)
      → validate R host cfg ≡ []
      → Distinct (ports_of cfg.virtual_smscs)
        × All InRange (ports_of cfg.virtual_smscs)
        × All (Free (observability_port cfg.observability)) (ports_of cfg.virtual_smscs)
  unfolding validate
  validate_ports host cfg h =
      let (free, distinct, range) = ports_loop-clean host _ cfg.virtual_smscs (clean_both h).1 in
      (distinct, range, free)
