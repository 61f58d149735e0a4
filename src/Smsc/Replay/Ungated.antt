-- ===== src/Smsc/Replay/Ungated.antt =====
-- internal/smsc/session.go: an operation at other times, and the binds.
use go_smsc_simulator.Common.{
  ℕ, ◌+◌, ◌%◌, ◌^◌, ◌≡◌, refl, ap, ◌∙◌, arith, Bool, true, false, List, if◌then◌else◌, Option, none,
  some, if_both,
}
use go_smsc_simulator.Rng.{Rand}
use go_smsc_simulator.Smpp.Pdu.{Bind, Pdu}
use go_smsc_simulator.Config.Topology.{is_seeded}
use go_smsc_simulator.Config.Accepted.Replay.{new_bind_state-seeded, new_bind_state-ungated}
use go_smsc_simulator.Scenario.Engine.{BindState, effective_cap}
use go_smsc_simulator.Smsc.Session.{Env, World, send}
use go_smsc_simulator.Smsc.Events.{schedule_configured_events}
use go_smsc_simulator.Smsc.Handle.{as_bind, accept_bind, authenticate, handle_bind}
use go_smsc_simulator.Smsc.Quiet.{send-Quiet}
use go_smsc_simulator.Smsc.Replay.{reclock}
use go_smsc_simulator.Smsc.Steady.{Steady, Quiet-Steady, refuse-Steady}

if_same :
    {A : Type 0} (b : Bool) {x x' y y' : A}
    → x ≡ x'
    → y ≡ y'
    → (if b then x else y) ≡ (if b then x' else y')
if_same true p q = p
if_same false p q = q

module _ (R : Rand) where
  open R use {Source, Float}

  abbrev pub W : Type 0
  W = World Source Float

  abbrev pub is_gated : Option (BindState Source) → Bool
  is_gated none = false
  is_gated (some st) = elim st.gate [ none ↦ false | some g ↦ true ]

  pub not_gated : (st : BindState Source) → is_gated (some st) ≡ false → st.gate ≡ none
  not_gated st h = ground arith

  pub free_gate : (st : BindState Source) → st.gate ≡ none → is_gated (some st) ≡ false
  free_gate st h = ground arith

  abbrev pub with_state : BindState Source → W → W
  with_state st w = record w { session = record w.session { scenario_state = some st } }

  -- No gate reads the clock, and no bind will have one or an unseeded source.
  pub record Ungated (w : W) : Type 0 where
    pub gate : is_gated w.session.scenario_state ≡ false
    pub seeded : is_seeded w.smsc.cfg.seed ≡ true
    pub capless : effective_cap w.smsc.scenario ≡ none

  pub Ungated-Steady : {w w' : W} → Steady w w' → Ungated w → Ungated w'
  Ungated-Steady k v = record {
    gate = ap is_gated k.state ∙ v.gate;
    seeded = ap (λ c. is_seeded c.seed) k.cfg ∙ v.seeded;
    capless = ap effective_cap k.initial ∙ v.capless;
  }

  -- What an operation makes of an ungated world is the same at any clock, and ungated.
  pub record Replayed (now : ℕ) (chaos : Source × ℕ) (env : Env Source) (f : Env Source → W)
      : Type 0 where
    pub same : f (reclock now chaos env) ≡ f env
    pub ungated : Ungated (f env)

  module _ (now : ℕ) (chaos : Source × ℕ) (env : Env Source) where
    pub steadily : {w : W} (w' : W) → Ungated w → Steady w w' → Replayed now chaos env (λ e. w')
    steadily w' v k = record { same = refl; ungated = Ungated-Steady k v }

    pub either :
        (b : Bool) (f g : Env Source → W)
        → Replayed now chaos env f
        → Replayed now chaos env g
        → Replayed now chaos env (λ e. if b then f e else g e)
    either true f g r s = r
    either false f g r s = s

    -- The same for a test on what was observed.
    pub observed :
        (b : Env Source → Bool) (f g : Env Source → W)
        → b (reclock now chaos env) ≡ b env
        → Replayed now chaos env f
        → Replayed now chaos env g
        → Replayed now chaos env (λ e. if b e then f e else g e)
    observed b f g h r s = record {
      same =
          ap (λ c. if c then f (reclock now chaos env) else g (reclock now chaos env)) h
          ∙ if_same (b env) r.same s.same;
      ungated = if_both Ungated (b env) r.ungated s.ungated;
    }

    accept-Replayed :
        (command : ℕ) (id kind : List ℕ) (w : W)
        → Ungated w
        → Replayed now chaos env (λ e. accept_bind R e command id kind w)
    unfolding accept_bind schedule_configured_events
    accept-Replayed command id kind w v = record {
      same =
          rw
            (new_bind_state-seeded R w.smsc.scenario w.smsc.cfg.seed w.smsc.cfg.name
              ((w.smsc.bind_seq + 1) % 2 ^ 64) chaos env.chaos v.seeded)
            refl;
      ungated = record {
        gate =
            rw
              (new_bind_state-ungated R w.smsc.scenario w.smsc.cfg.seed w.smsc.cfg.name
                ((w.smsc.bind_seq + 1) % 2 ^ 64) env.chaos v.capless)
              refl;
        seeded = v.seeded;
        capless = v.capless;
      };
    }

    sent-Replayed :
        (p : Pdu) (f : Env Source → W)
        → Replayed now chaos env f
        → Replayed now chaos env (λ e. send p (f e))
    sent-Replayed p f r = record {
      same = ap (send p) r.same;
      ungated = Ungated-Steady (Quiet-Steady (send-Quiet p (f env))) r.ungated;
    }

    authenticate-Replayed :
        (p : Pdu) (b : Bind) (w : W)
        → Ungated w
        → Replayed now chaos env (λ e. authenticate R e p b w)
    unfolding authenticate
    authenticate-Replayed p b w v = either _ _ _ (steadily _ v (refuse-Steady _ _ _ _ w)) (
        either _ _ _ (sent-Replayed _ _ (accept-Replayed p.command_id b.system_id _ w v))
          (steadily _ v (refuse-Steady _ _ _ _ w)))

    body-Replayed :
        (p q : Pdu) (body : Option Bind) (w : W)
        → Ungated w
        → Replayed now chaos env
            (λ e. elim body [ none ↦ send q w | some b ↦ authenticate R e p b w ])
    body-Replayed p q none w v = steadily _ v (Quiet-Steady (send-Quiet q w))
    body-Replayed p q (some b) w v = authenticate-Replayed p b w v

    pub bind-Replayed :
        (p : Pdu) (w : W) → Ungated w → Replayed now chaos env (λ e. handle_bind R e p w)
    unfolding handle_bind
    bind-Replayed p w v =
        either _ _ _ (steadily _ v (Quiet-Steady (send-Quiet _ w)))
          (body-Replayed p _ (as_bind p.body) w v)
