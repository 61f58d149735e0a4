-- ===== src/Observability/Own.antt =====
-- What the HTTP surface says of a virtual SMSC is said of the one under that name.
use go_smsc_simulator.Common.{
  some_inj, subst, ne→==_false, ℕ, zero, suc, ◌≡◌, ◌≢◌, refl, ◌∙◌, arith, ◌==◌, false, Bool-cases,
  List, [], ◌∷◌, length, get_elem?, All, none, some, inl, inr, bytes_eq, bytes_eq_refl, bytes_eq→eq,
  codes,
}
use go_smsc_simulator.Recorder.{snapshot}
use go_smsc_simulator.Smsc.Session.{VirtualSmsc}
use go_smsc_simulator.Smsc.Views.{view, views, by_name}
use go_smsc_simulator.Observability.{
  Query, Route, under_smsc, written, smsc, pdus, bind_views, clock, filter_of, route_of,
  serve_route, serve_http,
}

ne→bytes_eq_false : (s t : List ℕ) → s ≢ t → bytes_eq s t ≡ false
ne→bytes_eq_false s t h = elim (Bool-cases (bytes_eq s t)) [
  | inl e ↦ absurd (h (bytes_eq→eq s t e))
  | inr e ↦ e
]

abbrev pub path_of : List ℕ → List (List ℕ) → List (List ℕ)
path_of id rest = codes "v1" ∷ codes "virtual-smscs" ∷ id ∷ rest

route_own :
    (id : List ℕ) (rest : List (List ℕ))
    → (length id == 0) ≡ false
    → route_of (path_of id rest) ≡ under_smsc id rest
unfolding route_of bytes_eq
route_own id rest h = ground arith

module _ {F : Type 0} where
  abbrev pub DistinctNames : List (VirtualSmsc F) → Type 0
  DistinctNames [] = Unit
  DistinctNames (v ∷ vs) =
      All (λ (w : VirtualSmsc F). w.cfg.name ≢ v.cfg.name) vs × DistinctNames vs

  by_name-none :
      (id : List ℕ) (vs : List (VirtualSmsc F))
      → All (λ (w : VirtualSmsc F). w.cfg.name ≢ id) vs
      → by_name id vs ≡ none
  unfolding by_name
  by_name-none id [] h = refl
  by_name-none id (v ∷ vs) (n, h) = elim (Bool-cases (bytes_eq v.cfg.name id)) [
    | inl e ↦ absurd (n (bytes_eq→eq v.cfg.name id e))
    | inr e ↦ rw (by_name-none id vs h, by_name, e) refl
  ]

  by_name-own :
      (vs : List (VirtualSmsc F)) (i : ℕ) (v : VirtualSmsc F)
      → DistinctNames vs
      → get_elem? vs i ≡ some v
      → by_name v.cfg.name vs ≡ some v
  unfolding by_name
  by_name-own [] i v d e = absurd (cc e)
  by_name-own (w ∷ vs) zero v (h, d) e =
      subst (λ (x : VirtualSmsc F). by_name x.cfg.name (w ∷ vs) ≡ some x) (some_inj w v e)
        (rw (by_name-none w.cfg.name vs h, by_name, bytes_eq_refl w.cfg.name) refl)
  by_name-own (w ∷ vs) (suc i) v (h, d) e = rw (by_name-own vs i v d e, by_name) refl

  -- A request under the name of a virtual SMSC, by its method.
  serve_named :
      (id : List ℕ) (rest : List (List ℕ)) (r : Route) (q : Query) (vs : List (VirtualSmsc F))
      → (length id == 0) ≡ false
      → under_smsc id rest ≡ some r
      → serve_http (codes "GET") (path_of id rest) q vs ≡ serve_route r q vs
  unfolding serve_http bytes_eq
  serve_named id rest r q vs named e = rw (route_own id rest named, serve_http, e) refl

  refused :
      (method id : List ℕ) (q : Query) (vs : List (VirtualSmsc F))
      → (length id == 0) ≡ false
      → method ≢ codes "GET"
      → method ≢ codes "HEAD"
      → (serve_http method (path_of id []) q vs).status ≡ 405
  unfolding serve_http
  refused method id q vs named get head =
      let g = ne→bytes_eq_false method (codes "GET") get in
      let hd = ne→bytes_eq_false method (codes "HEAD") head in
      rw (route_own id [] named, serve_http, g, hd) refl

  -- Of virtual SMSCs with distinct names that are not empty: a GET under the name of one answers
  -- with its own summary, journal, binds and clock, and a request for its summary by any method but
  -- GET and HEAD is answered with 405.
  pub serve_http-own :
      (q : Query) (vs : List (VirtualSmsc F)) (i : ℕ) (v : VirtualSmsc F) (method : List ℕ)
      → DistinctNames vs
      → get_elem? vs i ≡ some v
      → length v.cfg.name ≢ 0
      → method ≢ codes "GET"
      → method ≢ codes "HEAD"
      → (serve_http (codes "GET") (path_of v.cfg.name []) q vs ≡ written (smsc (view v)))
        × (serve_http (codes "GET") (path_of v.cfg.name (codes "received-pdus" ∷ [])) q vs
            ≡ written (pdus (snapshot v.recorder (filter_of q))))
        × (serve_http (codes "GET") (path_of v.cfg.name (codes "binds" ∷ [])) q vs
            ≡ written (bind_views (views v.binds)))
        × (serve_http (codes "GET") (path_of v.cfg.name (codes "logical-clock" ∷ [])) q vs
            ≡ written (clock v.logical_clock))
        × ((serve_http method (path_of v.cfg.name []) q vs).status ≡ 405)
  unfolding serve_route bytes_eq
  serve_http-own q vs i v method d e named get head =
      let own = by_name-own vs i v d e in
      let name = ne→==_false (length v.cfg.name) 0 named in
      (
        serve_named v.cfg.name [] _ q vs name refl ∙ rw own refl,
        serve_named v.cfg.name (codes "received-pdus" ∷ []) _ q vs name refl ∙ rw own refl,
        serve_named v.cfg.name (codes "binds" ∷ []) _ q vs name refl ∙ rw own refl,
        serve_named v.cfg.name (codes "logical-clock" ∷ []) _ q vs name refl ∙ rw own refl,
        refused method v.cfg.name q vs name get head,
      )
