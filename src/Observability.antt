-- ===== src/Observability.antt =====
-- internal/observability: the routes of the HTTP surface and their handlers. The path of a request is
-- its segments, as the ServeMux of net/http splits it; a body is the value that is written as JSON.
-- strconv's two parsers are written out over the octets of a text.
pub mod Pages
pub mod Paging
pub mod Own
use go_smsc_simulator.Common.{
  ℕ, zero, suc, ◌+◌, ◌-◌, ◌*◌, ◌^◌, ltb, leb, ◌==◌, bytes_eq, codes, Bool, true, false, not, ◌&&◌,
  ◌||◌, List, [], ◌∷◌, ◌++◌, length, if◌then◌else◌, Option, none, some,
}
use go_smsc_simulator.Recorder.{RecordedPdu, Filter}
use go_smsc_simulator.Smsc.Session.{VirtualSmsc}
use go_smsc_simulator.Smsc.Views.{
  BindView, VirtualSmscView, virtual_smscs, virtual_smsc, received_pdus, binds, logical_clock,
}

-- The value of decimal digits behind those that gave `acc`.
unfoldable pub digits_value : ℕ → List ℕ → Option ℕ
digits_value acc [] = some acc
digits_value acc (c ∷ cs) =
    let rest = digits_value (acc * 10 + (c - 48)) cs in if leb 48 c && leb c 57 then rest else none

-- strconv.ParseUint(s, 10, 64)
unfoldable pub parse_decimal : List ℕ → Option ℕ
unfolding digits_value
parse_decimal s =
    if length s == 0
    then none
    else elim (digits_value 0 s) [ none ↦ none | some v ↦ if ltb v (2 ^ 64) then some v else none ]

-- strconv.Atoi, where it returns a positive int.
abbrev unsigned : List ℕ → List ℕ
unsigned [] = []
unsigned (c ∷ cs) = if c == 43 then cs else c ∷ cs

unfoldable pub atoi_positive : List ℕ → Option ℕ
unfolding digits_value
atoi_positive s = if length (unsigned s) == 0 then none else elim (digits_value 0 (unsigned s)) [
  | none ↦ none
  | some v ↦ if ltb 0 v && ltb v (2 ^ 63) then some v else none
]

unfoldable pub max_pdu_page : ℕ
max_pdu_page = 1000

-- `pageLimit`
unfoldable pub page_limit : List ℕ → ℕ
unfolding atoi_positive max_pdu_page
page_limit s = elim (atoi_positive s) [
  | none ↦ max_pdu_page
  | some v ↦ if ltb max_pdu_page v then max_pdu_page else v
]

-- `parseUint`
unfoldable pub parse_uint : List ℕ → ℕ
unfolding parse_decimal
parse_uint s = elim (parse_decimal s) [ none ↦ 0 | some v ↦ v ]

pub record Query : Type 0 where
  pub source_addr : List ℕ
  pub dest_addr : List ℕ
  pub since : List ℕ
  pub limit : List ℕ

pub data Content : Type 0 where
  health : Content
  metrics : Content
  smscs : List VirtualSmscView → Content
  smsc : VirtualSmscView → Content
  pdus : List RecordedPdu → Content
  bind_views : List BindView → Content
  clock : ℕ → Content
  unknown_smsc : List ℕ → Content
  empty : Content

pub record Response : Type 0 where
  pub status : ℕ
  pub body : Content

abbrev pub written : Content → Response
written b = record { status = 200; body = b }

abbrev pub not_found : List ℕ → Response
not_found id = record { status = 404; body = unknown_smsc id }

-- What a handler makes of a look-up.
abbrev pub answered {ℓ} : {A : Type ℓ} → List ℕ → (A → Content) → Option A → Response
answered id f none = not_found id
answered id f (some a) = written (f a)

abbrev pub filter_of : Query → Filter
filter_of q = record {
  source_addr = q.source_addr;
  dest_addr = q.dest_addr;
  since = parse_uint q.since;
  limit = page_limit q.limit;
}

module _ {F : Type 0} where
  unfoldable pub handle_received_pdus : List ℕ → Query → List (VirtualSmsc F) → Response
  unfolding page_limit parse_uint received_pdus
  handle_received_pdus id q vs = answered id pdus (received_pdus id (filter_of q) vs)

  unfoldable pub handle_virtual_smscs : List (VirtualSmsc F) → Response
  unfolding virtual_smscs
  handle_virtual_smscs vs = written (smscs (virtual_smscs vs))

  unfoldable pub handle_virtual_smsc : List ℕ → List (VirtualSmsc F) → Response
  unfolding virtual_smsc
  handle_virtual_smsc id vs = answered id smsc (virtual_smsc id vs)

  unfoldable pub handle_binds : List ℕ → List (VirtualSmsc F) → Response
  unfolding binds
  handle_binds id vs = answered id bind_views (binds id vs)

  unfoldable pub handle_logical_clock : List ℕ → List (VirtualSmsc F) → Response
  unfolding logical_clock
  handle_logical_clock id vs = answered id clock (logical_clock id vs)

-- The patterns of NewServer.
pub data Route : Type 0 where
  route_health route_metrics route_smscs : Route
  route_smsc route_pdus route_binds route_clock : List ℕ → Route

-- The last segments under `/v1/virtual-smscs/{id}`.
abbrev under_smsc : List ℕ → List (List ℕ) → Option Route
under_smsc id [] = some (route_smsc id)
under_smsc id (s ∷ []) =
    if bytes_eq s (codes "received-pdus")
    then some (route_pdus id)
    else if bytes_eq s (codes "binds")
    then some (route_binds id)
    else if bytes_eq s (codes "logical-clock")
    then some (route_clock id)
    else none
under_smsc id (s ∷ t ∷ rest) = none

abbrev under_v1 : List (List ℕ) → Option Route
under_v1 [] = none
under_v1 (s ∷ []) = if bytes_eq s (codes "virtual-smscs") then some route_smscs else none
under_v1 (s ∷ id ∷ rest) =
    if bytes_eq s (codes "virtual-smscs") && not (length id == 0) then under_smsc id rest else none

unfoldable pub route_of : List (List ℕ) → Option Route
route_of [] = none
route_of (s ∷ []) =
    if bytes_eq s (codes "health")
    then some route_health
    else if bytes_eq s (codes "metrics")
    then some route_metrics
    else none
route_of (s ∷ t ∷ rest) = if bytes_eq s (codes "v1") then under_v1 (t ∷ rest) else none

module _ {F : Type 0} where
  unfoldable pub serve_route : Route → Query → List (VirtualSmsc F) → Response
  unfolding handle_received_pdus handle_virtual_smscs handle_virtual_smsc handle_binds
      handle_logical_clock
  serve_route route_health q vs = written health
  serve_route route_metrics q vs = written metrics
  serve_route route_smscs q vs = handle_virtual_smscs vs
  serve_route (route_smsc id) q vs = handle_virtual_smsc id vs
  serve_route (route_pdus id) q vs = handle_received_pdus id q vs
  serve_route (route_binds id) q vs = handle_binds id vs
  serve_route (route_clock id) q vs = handle_logical_clock id vs

  -- A request, by its method: a pattern with GET takes HEAD too.
  unfoldable pub serve_http : List ℕ → List (List ℕ) → Query → List (VirtualSmsc F) → Response
  unfolding route_of serve_route
  serve_http method path q vs = elim (route_of path) [
    | none ↦ record { status = 404; body = empty }
    | some r ↦
        if bytes_eq method (codes "GET") || bytes_eq method (codes "HEAD")
        then serve_route r q vs
        else record { status = 405; body = empty }
  ]
