-- ===== src/Smsc/Boot/Ports.antt =====
-- Which ports a boot leaves open.
use go_smsc_simulator.Common.{
  List-cases, ℤ, pos, negsuc, eq_int, true, ap, sym, ◌∙◌, ◌≡◌, refl, arith, List, [], ◌∷◌, ◌++◌,
  map, append_assoc, append-nil, Option, none, some, Option-cases, Bool-cases, inl, inr, Result, ok,
  err,
}
use go_smsc_simulator.Rng.{Rand}
use go_smsc_simulator.Config.Schema.{VirtualSmscConfig, ObservabilityConfig, Config}
use go_smsc_simulator.Config.Topology.{Host, validate}
use go_smsc_simulator.Smsc.Session.{VirtualSmsc}
use go_smsc_simulator.Smsc.Create.{new_virtual_smsc}
use go_smsc_simulator.Smsc.Boot.{
  Platform, BootError, invalid_config, tls_error, listen_error, observability_error, can_listen,
  close_listener, close_listeners, load_certs, listen_loop, new_engine, start_observability, boot,
}

-- The port of the HTTP surface, if there is one.
abbrev pub surface_port : Option ObservabilityConfig → List ℤ
surface_port none = []
surface_port (some o) = o.http_port ∷ []

eq_int_refl : (p : ℤ) → eq_int p p ≡ true
eq_int_refl (pos n) = ground arith
eq_int_refl (negsuc n) = ground arith

module _ {F : Type 0} where
  abbrev pub ports_of : List (VirtualSmscConfig F) → List ℤ
  ports_of cfgs = map (λ c. c.port) cfgs

  -- Either everything is open, or nothing is.
  pub data AllOrNothing (smscs : List (VirtualSmsc F)) (ports : List ℤ)
      (r : Result BootError (List (VirtualSmsc F)) × List ℤ) : Type 0 where
    everything : r ≡ (ok smscs, ports) → AllOrNothing smscs ports r
    nothing : (e : BootError) → r ≡ (err e, []) → AllOrNothing smscs ports r

  -- The ports that the listeners of the virtual SMSCs hold.
  abbrev listening : List (VirtualSmsc F) → List ℤ
  listening [] = []
  listening (v ∷ vs) = v.cfg.port ∷ listening vs

  listening-snoc :
      (smscs : List (VirtualSmsc F)) (cfg : VirtualSmscConfig F)
      → listening (smscs ++ new_virtual_smsc cfg ∷ []) ≡ listening smscs ++ cfg.port ∷ []
  unfolding new_virtual_smsc
  listening-snoc [] cfg = refl
  listening-snoc (v ∷ vs) cfg = ap (◌∷◌ v.cfg.port) (listening-snoc vs cfg)

  listening-each :
      (cfgs : List (VirtualSmscConfig F)) → listening (map new_virtual_smsc cfgs) ≡ ports_of cfgs
  unfolding new_virtual_smsc
  listening-each [] = refl
  listening-each (cfg ∷ cfgs) = ap (◌∷◌ cfg.port) (listening-each cfgs)

  -- Where the virtual SMSCs hold every port, closing their listeners leaves none.
  close_listeners_all :
      (smscs : List (VirtualSmsc F)) → close_listeners smscs (listening smscs) ≡ []
  unfolding close_listeners close_listener
  close_listeners_all [] = refl
  close_listeners_all (v ∷ vs) = rw (eq_int_refl v.cfg.port) (close_listeners_all vs)

  moved :
      {smscs smscs' : List (VirtualSmsc F)} {ports ports' : List ℤ}
      {r r' : Result BootError (List (VirtualSmsc F)) × List ℤ}
      → smscs ≡ smscs'
      → ports ≡ ports'
      → r ≡ r'
      → AllOrNothing smscs ports r
      → AllOrNothing smscs' ports' r'
  moved p q e (everything h) = everything (cc (p, q, e, h))
  moved p q e (nothing b h) = nothing b (cc (e, h))

  listen_loop-AllOrNothing :
      (platform : Platform) (held : List ℤ) (smscs : List (VirtualSmsc F))
      (cfgs : List (VirtualSmscConfig F))
      → held ≡ listening smscs
      → AllOrNothing
          (smscs ++ map new_virtual_smsc cfgs)
          (held ++ ports_of cfgs)
          (listen_loop platform held smscs cfgs)
  unfolding listen_loop
  listen_loop-AllOrNothing platform held smscs [] h =
      everything (rw (append-nil smscs, append-nil held) refl)
  listen_loop-AllOrNothing platform held smscs (cfg ∷ cfgs) h =
      elim (Bool-cases (can_listen platform held cfg.port)) [
        | inr refused ↦
            nothing (listen_error cfg.port)
              (rw (refused, ap (close_listeners smscs) h, close_listeners_all smscs) refl)
        | inl granted ↦
            moved (append_assoc smscs (new_virtual_smsc cfg ∷ []) (map new_virtual_smsc cfgs))
              (append_assoc held (cfg.port ∷ []) (ports_of cfgs)) (ground arith)
              (listen_loop-AllOrNothing platform (held ++ cfg.port ∷ [])
                (smscs ++ new_virtual_smsc cfg ∷ []) cfgs
                (ap (λ z. z ++ cfg.port ∷ []) h ∙ sym (listening-snoc smscs cfg)))
      ]

  new_engine-AllOrNothing :
      (platform : Platform) (cfgs : List (VirtualSmscConfig F))
      → AllOrNothing (map new_virtual_smsc cfgs) (ports_of cfgs) (new_engine platform [] cfgs)
  unfolding new_engine
  new_engine-AllOrNothing platform cfgs = elim (Option-cases (load_certs platform cfgs)) [
    | inl e ↦ rw (e, new_engine) (listen_loop-AllOrNothing platform [] [] cfgs refl)
    | inr (name, e) ↦ nothing (tls_error name) (ground arith)
  ]

  surface-AllOrNothing :
      (platform : Platform) (surface : Option ObservabilityConfig) (smscs : List (VirtualSmsc F))
      (ports : List ℤ) (r : Result BootError (List (VirtualSmsc F)) × List ℤ)
      → ports ≡ listening smscs
      → AllOrNothing smscs ports r
      → AllOrNothing smscs (ports ++ surface_port surface) (start_observability platform surface r)
  unfolding start_observability
  surface-AllOrNothing platform surface smscs ports r p (nothing e h) = nothing e (rw h refl)
  surface-AllOrNothing platform none smscs ports r p (everything h) =
      everything (rw (h, append-nil ports) refl)
  surface-AllOrNothing platform (some o) smscs ports r p (everything h) =
      rw h (elim (Bool-cases (can_listen platform ports o.http_port)) [
        | inl granted ↦ everything (ground arith)
        | inr refused ↦
            nothing (observability_error o.http_port)
              (rw (refused, ap (close_listeners smscs) p, close_listeners_all smscs) refl)
      ])

-- Whatever the configuration, the certificates and the host: a boot either runs every configured
-- virtual SMSC with exactly their ports and that of the HTTP surface open, or it fails and leaves
-- no port open.
pub boot-AllOrNothing :
    (R : Rand) (host : Host) (platform : Platform) (cfg : Config R.Float)
    → AllOrNothing
        (map new_virtual_smsc cfg.virtual_smscs)
        (ports_of cfg.virtual_smscs ++ surface_port cfg.observability)
        (boot R host platform cfg)
unfolding boot
boot-AllOrNothing R host platform cfg = elim (List-cases (validate R host cfg)) [
  | inl clean ↦
      rw (clean, boot)
        (surface-AllOrNothing platform cfg.observability _ _ _
          (sym (listening-each cfg.virtual_smscs))
          (new_engine-AllOrNothing platform cfg.virtual_smscs))
  | inr (f, fs, e) ↦ nothing (invalid_config (f ∷ fs)) (ground arith)
]
