-- ===== src/Smsc/Views.antt =====
-- internal/smsc/binds.go, virtualsmsc.go and engine.go: the read-only views of the engine, with the
-- types of internal/observability/inspect.go. `ConnectedAt` and its format are left out.
pub mod Order
use go_smsc_simulator.Common.{
  ℤ, ℕ, ltb, bytes_eq, Bool, List, [], ◌∷◌, if◌then◌else◌, map, Option, none, some,
}
use go_smsc_simulator.Config.Enums.{Profile}
use go_smsc_simulator.Recorder.{RecordedPdu, Filter, snapshot, len}
use go_smsc_simulator.Smsc.Binds.{BindInfo, count}
use go_smsc_simulator.Smsc.Session.{VirtualSmsc}

pub record BindView : Type 0 where
  pub id : ℕ
  pub system_id : List ℕ
  pub bind_type : List ℕ

pub record VirtualSmscView : Type 0 where
  pub name : List ℕ
  pub port : ℤ
  pub active_profile : Profile
  pub bind_count : ℕ
  pub logical_clock : ℕ
  pub recorded_pdus : ℕ

abbrev pub view_of_bind : BindInfo → BindView
view_of_bind b = record { id = b.id; system_id = b.system_id; bind_type = b.bind_type }

-- `sort.Slice` by `ID`.
unfoldable pub insert_view : BindView → List BindView → List BindView
insert_view b [] = b ∷ []
insert_view b (c ∷ cs) =
    let rest = insert_view b cs in if ltb c.id b.id then c ∷ rest else b ∷ c ∷ cs

unfoldable pub sort_views : List BindView → List BindView
sort_views [] = []
sort_views (b ∷ bs) = insert_view b (sort_views bs)

-- `bindRegistry.views`
unfoldable pub views : List BindInfo → List BindView
views bs = sort_views (map view_of_bind bs)

module _ {F : Type 0} where
  -- `virtualSMSC.view`
  abbrev pub view : VirtualSmsc F → VirtualSmscView
  view v = record {
    name = v.cfg.name;
    port = v.cfg.port;
    active_profile = v.active_profile;
    bind_count = count v.binds;
    logical_clock = v.logical_clock;
    recorded_pdus = len v.recorder;
  }

  -- The look-up in `byName`, to which New has assigned the virtual SMSCs in order.
  unfoldable pub by_name : List ℕ → List (VirtualSmsc F) → Option (VirtualSmsc F)
  by_name id [] = none
  by_name id (v ∷ vs) = elim (by_name id vs) [
    | some w ↦ some w
    | none ↦ if bytes_eq v.cfg.name id then some v else none
  ]

  unfoldable pub virtual_smscs : List (VirtualSmsc F) → List VirtualSmscView
  virtual_smscs smscs = map view smscs

  abbrev pub found {ℓ} : {A : Type ℓ} → (VirtualSmsc F → A) → Option (VirtualSmsc F) → Option A
  found f none = none
  found f (some v) = some (f v)

  unfoldable pub virtual_smsc : List ℕ → List (VirtualSmsc F) → Option VirtualSmscView
  unfolding by_name
  virtual_smsc id smscs = found view (by_name id smscs)

  unfoldable pub received_pdus : List ℕ → Filter → List (VirtualSmsc F) → Option (List RecordedPdu)
  unfolding by_name
  received_pdus id f smscs = found (λ v. snapshot v.recorder f) (by_name id smscs)

  unfoldable pub binds : List ℕ → List (VirtualSmsc F) → Option (List BindView)
  unfolding by_name
  binds id smscs = found (λ v. views v.binds) (by_name id smscs)

  unfoldable pub logical_clock : List ℕ → List (VirtualSmsc F) → Option ℕ
  unfolding by_name
  logical_clock id smscs = found (λ v. v.logical_clock) (by_name id smscs)
