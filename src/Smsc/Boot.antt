-- ===== src/Smsc/Boot.antt =====
-- internal/smsc/engine.go, New, and cmd/smsc-simulator/main.go, run up to its start: which ports the
-- process listens on. What the libraries and the host
-- answer, tls.LoadX509KeyPair, crypto/x509 and net.Listen, is a parameter.
pub mod Ports
pub mod Accepted
use go_smsc_simulator.Common.{
  ℤ, pos, ℕ, eq_int, Bool, true, false, not, ◌&&◌, ◌||◌, List, [], ◌∷◌, ◌++◌, length, ◌==◌, Option,
  none, some, if◌then◌else◌, Result, ok, err,
}
use go_smsc_simulator.Rng.{Rand}
use go_smsc_simulator.Config.Schema.{TlsConfig, VirtualSmscConfig, ObservabilityConfig, Config}
use go_smsc_simulator.Config.Faults.{Fault}
use go_smsc_simulator.Config.Topology.{Host, seen_port, validate}
use go_smsc_simulator.Smsc.Session.{VirtualSmsc}
use go_smsc_simulator.Smsc.Create.{new_virtual_smsc}

-- Whether the libraries load a key pair and make a certificate of their own, and whether the host
-- grants a port that the process does not hold.
pub record Platform : Type 0 where
  pub loads_key_pair : List ℕ → List ℕ → Bool
  pub generates : Bool
  pub grants : ℤ → Bool

pub data BootError : Type 0 where
  invalid_config : List Fault → BootError
  tls_error : List ℕ → BootError
  listen_error : ℤ → BootError
  observability_error : ℤ → BootError

-- internal/tlscert/tlscert.go, `LoadOrGenerate`: whether there is a certificate.
abbrev pub load_or_generate : Platform → TlsConfig → Bool
load_or_generate platform tls =
    if not (length tls.cert_file == 0)
    then platform.loads_key_pair tls.cert_file tls.key_file
    else platform.generates

-- net.Listen: port 0 is one that nobody holds.
abbrev pub can_listen : Platform → List ℤ → ℤ → Bool
can_listen platform held p = platform.grants p && (eq_int p (pos 0) || not (seen_port p held))

-- `Close` of a listener on a port: the port is held no longer.
unfoldable pub close_listener : ℤ → List ℤ → List ℤ
close_listener p [] = []
close_listener p (q ∷ held) =
    let rest = close_listener p held in if eq_int p q then held else q ∷ rest

module _ {F : Type 0} where
  -- The loop that loads the certificates, and the virtual SMSC for which it fails.
  unfoldable pub load_certs : Platform → List (VirtualSmscConfig F) → Option (List ℕ)
  load_certs platform [] = none
  load_certs platform (cfg ∷ cfgs) =
      let rest = load_certs platform cfgs in
      if cfg.tls.enabled && not (load_or_generate platform cfg.tls) then some cfg.name else rest

  -- `closeListeners`: over the virtual SMSCs that have a listener, given the ports that are held.
  unfoldable pub close_listeners : List (VirtualSmsc F) → List ℤ → List ℤ
  unfolding close_listener
  close_listeners [] held = held
  close_listeners (v ∷ vs) held = close_listeners vs (close_listener v.cfg.port held)

  -- The loop that listens: the virtual SMSCs that were opened so far, `e.smscs`, and the ports that
  -- the process holds.
  unfoldable pub listen_loop :
      Platform
      → List ℤ
      → List (VirtualSmsc F)
      → List (VirtualSmscConfig F)
      → Result BootError (List (VirtualSmsc F)) × List ℤ
  unfolding close_listeners
  listen_loop platform held smscs [] = (ok smscs, held)
  listen_loop platform held smscs (cfg ∷ cfgs) =
      let rest =
        listen_loop platform (held ++ cfg.port ∷ []) (smscs ++ new_virtual_smsc cfg ∷ []) cfgs in
      if can_listen platform held cfg.port
      then rest
      else (err (listen_error cfg.port), close_listeners smscs held)

  -- `New`, with the ports that the process holds before it.
  unfoldable pub new_engine :
      Platform
      → List ℤ
      → List (VirtualSmscConfig F)
      → Result BootError (List (VirtualSmsc F)) × List ℤ
  unfolding load_certs listen_loop
  new_engine platform held cfgs = elim (load_certs platform cfgs) [
    | some name ↦ (err (tls_error name), held)
    | none ↦ listen_loop platform held [] cfgs
  ]

  -- `startObservability` behind the engine, and `stopEngine` where it fails: Shutdown of an engine
  -- that does not serve closes its listeners.
  unfoldable pub start_observability :
      Platform
      → Option ObservabilityConfig
      → Result BootError (List (VirtualSmsc F)) × List ℤ
      → Result BootError (List (VirtualSmsc F)) × List ℤ
  unfolding close_listeners
  start_observability platform surface (err e, held) = (err e, held)
  start_observability platform none (ok smscs, held) = (ok smscs, held)
  start_observability platform (some o) (ok smscs, held) =
      if can_listen platform held o.http_port
      then (ok smscs, held ++ o.http_port ∷ [])
      else (err (observability_error o.http_port), close_listeners smscs held)

-- `run`, from the decoded configuration to the start, of a process that holds no port.
unfoldable pub boot :
    (R : Rand)
    → Host
    → Platform
    → Config R.Float
    → Result BootError (List (VirtualSmsc R.Float)) × List ℤ
unfolding new_engine start_observability
boot R host platform cfg =
    let held : List ℤ = [] in
    elim (validate R host cfg) [
      | [] ↦
          start_observability platform cfg.observability
            (new_engine platform held cfg.virtual_smscs)
      | f ∷ fs ↦ (err (invalid_config (f ∷ fs)), held)
    ]
