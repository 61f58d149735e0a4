-- ===== src/Smsc/Boot/Accepted.antt =====
-- An accepted topology does not stand in its own way.
use go_smsc_simulator.Common.{
  ℤ, pos, negsuc, ◌≡◌, ◌≢◌, refl, ap, subst, arith, eq_int, is_below, is_above, true, false, not,
  ◌&&◌, ◌||◌, List, [], ◌∷◌, ◌++◌, map, append_assoc, append-nil, All, Option, none, some,
  Bool-cases, inl, inr, if◌then◌else◌, ok,
}
use go_smsc_simulator.Rng.{Rand}
use go_smsc_simulator.Config.Schema.{VirtualSmscConfig, ObservabilityConfig, Config}
use go_smsc_simulator.Config.Faults.{clean_both, clean_test, if_set, fault_if, param_out_of_bounds}
use go_smsc_simulator.Config.Profiles.{port_max}
use go_smsc_simulator.Config.Topology.{Host, seen_port, observability_port, validate}
use go_smsc_simulator.Config.Accepted.Ports.{Free, Distinct, validate_ports}
use go_smsc_simulator.Smsc.Session.{VirtualSmsc}
use go_smsc_simulator.Smsc.Create.{new_virtual_smsc}
use go_smsc_simulator.Smsc.Boot.{
  load_or_generate, Platform, can_listen, load_certs, listen_loop, new_engine, start_observability,
  boot,
}
use go_smsc_simulator.Smsc.Boot.Ports.{ports_of, surface_port}

eq_int_comm : (p q : ℤ) → eq_int p q ≡ eq_int q p
eq_int_comm (pos a) (pos b) = ground arith
eq_int_comm (pos a) (negsuc b) = refl
eq_int_comm (negsuc a) (pos b) = refl
eq_int_comm (negsuc a) (negsuc b) = ground arith

eq_int→eq : (p q : ℤ) → eq_int p q ≡ true → p ≡ q
eq_int→eq (pos a) (pos b) h = ap pos (ground arith)
eq_int→eq (pos a) (negsuc b) h = absurd (cc h)
eq_int→eq (negsuc a) (pos b) h = absurd (cc h)
eq_int→eq (negsuc a) (negsuc b) h = ap negsuc (ground arith)

ne→eq_int_false : (p q : ℤ) → p ≢ q → eq_int p q ≡ false
ne→eq_int_false p q h = elim (Bool-cases (eq_int p q)) [
  | inl e ↦ absurd (h (eq_int→eq p q e))
  | inr e ↦ e
]

-- A port that is free stays so when another one is taken.
seen_port-snoc : (p q : ℤ) (held : List ℤ) → Free held q → q ≢ p → Free (held ++ p ∷ []) q
seen_port-snoc p q [] h other = let e = ne→eq_int_false q p other in ground arith
seen_port-snoc p q (r ∷ held) h other =
    let rest = seen_port-snoc p q held (ground arith) other in ground arith

seen_port-each :
    (p : ℤ) (held qs : List ℤ)
    → All (Free held) qs
    → All (λ q. q ≢ p) qs
    → All (Free (held ++ p ∷ [])) qs
seen_port-each p held [] h k = tt
seen_port-each p held (q ∷ qs) (a, h) (b, k) =
    (seen_port-snoc p q held a b, seen_port-each p held qs h k)

-- The port of the HTTP surface is none of those that it leaves free.
seen_port-surface : (o : ℤ) (ps : List ℤ) → All (Free (o ∷ [])) ps → seen_port o ps ≡ false
seen_port-surface o [] h = refl
seen_port-surface o (p ∷ ps) (a, h) =
    let rest = seen_port-surface o ps h in let e = eq_int_comm o p in ground arith

zero_port : (p : ℤ) → is_below p 0 ≡ false → is_above p 0 ≡ false → eq_int p (pos 0) ≡ true
zero_port (pos n) h k = ground arith
zero_port (negsuc n) h k = absurd (cc h)

abbrev pub Granted : Platform → ℤ → Type 0
Granted platform p = platform.grants p ≡ true

none_held : (ps : List ℤ) → All (Free []) ps
none_held [] = tt
none_held (p ∷ ps) = (refl, none_held ps)

module _ {F : Type 0} (platform : Platform) where
  abbrev pub Certified : VirtualSmscConfig F → Type 0
  Certified c = (c.tls.enabled && not (load_or_generate platform c.tls)) ≡ false

  load_certs-none :
      (cfgs : List (VirtualSmscConfig F)) → All Certified cfgs → load_certs platform cfgs ≡ none
  unfolding load_certs
  load_certs-none [] h = refl
  load_certs-none (c ∷ cfgs) (a, h) = rw (a, load_certs-none cfgs h) refl

  listen_loop-ok :
      (held : List ℤ) (smscs : List (VirtualSmsc F)) (cfgs : List (VirtualSmscConfig F))
      → All (Granted platform) (ports_of cfgs)
      → All (Free held) (ports_of cfgs)
      → Distinct (ports_of cfgs)
      → listen_loop platform held smscs cfgs
        ≡ (ok (smscs ++ map new_virtual_smsc cfgs), held ++ ports_of cfgs)
  unfolding listen_loop
  listen_loop-ok held smscs [] g f d = rw (append-nil smscs, append-nil held) refl
  listen_loop-ok held smscs (c ∷ cfgs) (g, gs) (f, fs) (d, ds) =
      let granted : can_listen platform held c.port ≡ true = ground arith in
      let rest =
        listen_loop-ok (held ++ c.port ∷ []) (smscs ++ new_virtual_smsc c ∷ []) cfgs gs
          (seen_port-each c.port held (ports_of cfgs) fs d) ds in
      rw
        (
          granted,
          rest,
          append_assoc smscs (new_virtual_smsc c ∷ []) (map new_virtual_smsc cfgs),
          append_assoc held (c.port ∷ []) (ports_of cfgs),
        )
        refl

new_engine-ok :
    {F : Type 0} (platform : Platform) (cfgs : List (VirtualSmscConfig F))
    → All (Certified platform) cfgs
    → All (Granted platform) (ports_of cfgs)
    → Distinct (ports_of cfgs)
    → new_engine platform [] cfgs ≡ (ok (map new_virtual_smsc cfgs), ports_of cfgs)
unfolding new_engine
new_engine-ok platform cfgs certs grants distinct =
    rw (load_certs-none platform cfgs certs, new_engine)
      (listen_loop-ok platform [] [] cfgs grants (none_held (ports_of cfgs)) distinct)

-- The tests on the HTTP port that a surface passes.
surface_clean :
    (o : ObservabilityConfig)
    → if_set (some o) (λ o.
      fault_if
        (is_below o.http_port 0 || is_above o.http_port port_max)
        param_out_of_bounds
        "observability.http_port")
      ≡ []
    → is_below o.http_port 0 ≡ false
surface_clean o h =
    let e = clean_test _ param_out_of_bounds "observability.http_port" h in ground arith

surface_listens :
    (platform : Platform) (o : ObservabilityConfig) (ports : List ℤ)
    → Granted platform o.http_port
    → is_below o.http_port 0 ≡ false
    → All (Free (observability_port (some o))) ports
    → can_listen platform ports o.http_port ≡ true
surface_listens platform o ports g low h = elim (Bool-cases (is_above o.http_port 0)) [
  | inr zero ↦ let e = zero_port o.http_port low zero in rw (g, e) refl
  | inl above ↦
      let e =
        seen_port-surface o.http_port ports
          (subst (λ b. All (Free (if b then o.http_port ∷ [] else [])) ports) above h) in
      ground arith
]

surface-ok :
    {F : Type 0} (platform : Platform) (surface : Option ObservabilityConfig)
    (smscs : List (VirtualSmsc F)) (ports : List ℤ)
    → if_set surface (λ o.
      fault_if
        (is_below o.http_port 0 || is_above o.http_port port_max)
        param_out_of_bounds
        "observability.http_port")
      ≡ []
    → All (Granted platform) (surface_port surface)
    → All (Free (observability_port surface)) ports
    → start_observability platform surface (ok smscs, ports)
      ≡ (ok smscs, ports ++ surface_port surface)
unfolding start_observability
surface-ok platform none smscs ports c g h = rw (append-nil ports) refl
surface-ok platform (some o) smscs ports c (g, _) h =
    rw (surface_listens platform o ports g (surface_clean o c) h) refl

surface_tests :
    (R : Rand) (host : Host) (cfg : Config R.Float)
    → validate R host cfg ≡ []
    → if_set cfg.observability (λ o.
      fault_if
        (is_below o.http_port 0 || is_above o.http_port port_max)
        param_out_of_bounds
        "observability.http_port")
      ≡ []
unfolding validate
surface_tests R host cfg h = (clean_both h).0

-- A topology that validation accepts starts, with every port open, wherever its certificates can be
-- loaded and the host grants each of its ports for itself: no two of its listeners, the HTTP surface
-- included, stand in each other's way.
pub boot_accepted :
    (R : Rand) (host : Host) (platform : Platform) (cfg : Config R.Float)
    → validate R host cfg ≡ []
    → All (Certified platform) cfg.virtual_smscs
    → All (Granted platform) (ports_of cfg.virtual_smscs)
    → All (Granted platform) (surface_port cfg.observability)
    → boot R host platform cfg ≡ (
      ok (map new_virtual_smsc cfg.virtual_smscs),
      ports_of cfg.virtual_smscs ++ surface_port cfg.observability,
    )
unfolding boot
boot_accepted R host platform cfg h certs grants surface =
    let (distinct, _, free) = validate_ports R host cfg h in
    rw (h, boot, new_engine-ok platform cfg.virtual_smscs certs grants distinct)
      (surface-ok platform cfg.observability _ (ports_of cfg.virtual_smscs)
        (surface_tests R host cfg h) surface free)
