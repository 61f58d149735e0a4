-- ===== src/Smsc/Views/Order.antt =====
-- The view of the registry does not depend on the order in which Go iterates over its map.
use go_smsc_simulator.Common.{
  ℕ, ◌<◌, ◌≡◌, ◌≢◌, refl, sym, ap, subst, ◌∙◌, arith, List, [], ◌∷◌, All, All-map, map, ltb,
  Bool-cases, inl, inr,
}
use mathlib.Core.List.{Perm, Permᴰ}
use mathlib.Core.List.Perm
use mathlib.Core.Logic.{∥∥₁_elim}
use go_smsc_simulator.Smsc.Binds.{BindInfo}
use go_smsc_simulator.Smsc.Views.{BindView, view_of_bind, insert_view, sort_views, views}

-- Entries of a map: no two have one id.
abbrev pub DistinctIds : List BindInfo → Type 0
DistinctIds [] = Unit
DistinctIds (b ∷ bs) = All (λ c. c.id ≢ b.id) bs × DistinctIds bs

insert_view_comm :
    (a b : BindView) (ds : List BindView)
    → a.id ≢ b.id
    → insert_view a (insert_view b ds) ≡ insert_view b (insert_view a ds)
unfolding insert_view
insert_view_comm a b [] h = ground arith
insert_view_comm a b (d ∷ ds) h = ground (arith, insert_view_comm a b ds)

All-Permᴰ : (P : BindInfo → Type 0) {xs ys : List BindInfo} → Permᴰ xs ys → All P xs → All P ys
All-Permᴰ P Permᴰ.nil h = h
All-Permᴰ P (Permᴰ.cons e p) (q, h) = (subst P e q, All-Permᴰ P p h)
All-Permᴰ P (Permᴰ.swap e e') (q, (r, h)) = (subst P e' r, (subst P e q, h))
All-Permᴰ P (Permᴰ.trans p q) h = All-Permᴰ P q (All-Permᴰ P p h)

Distinct-Permᴰ : {xs ys : List BindInfo} → Permᴰ xs ys → DistinctIds xs → DistinctIds ys
Distinct-Permᴰ Permᴰ.nil d = d
Distinct-Permᴰ (Permᴰ.cons {l₁ = xs} {l₂ = ys} e p) (h, d) =
    (subst (λ z. All (λ c. c.id ≢ z.id) ys) e (All-Permᴰ _ p h), Distinct-Permᴰ p d)
Distinct-Permᴰ (Permᴰ.swap {l = l} e e') ((n, h), (k, d)) = (
  (
    λ q. n (ap (λ (z : BindInfo). z.id) e' ∙ (sym q ∙ sym (ap (λ (z : BindInfo). z.id) e))),
    subst (λ z. All (λ c. c.id ≢ z.id) l) e' k,
  ),
  (subst (λ z. All (λ c. c.id ≢ z.id) l) e h, d),
)
Distinct-Permᴰ (Permᴰ.trans p q) d = Distinct-Permᴰ q (Distinct-Permᴰ p d)

views-Permᴰ :
    {xs ys : List BindInfo}
    → Permᴰ xs ys
    → DistinctIds xs
    → sort_views (map view_of_bind xs) ≡ sort_views (map view_of_bind ys)
unfolding sort_views
views-Permᴰ Permᴰ.nil d = refl
views-Permᴰ (Permᴰ.cons e p) (h, d) = rw (e, views-Permᴰ p d)
views-Permᴰ (Permᴰ.swap {l = l} e e') ((n, h), d) =
    rw (← e, ← e') (insert_view_comm _ _ (sort_views (map view_of_bind l)) (λ q. n (sym q)))
views-Permᴰ (Permᴰ.trans p q) d = views-Permᴰ p d ∙ views-Permᴰ q (Distinct-Permᴰ p d)

-- Listed by id, upwards.
abbrev pub Ascending : List BindView → Type 0
Ascending [] = Unit
Ascending (b ∷ bs) = All (λ (c : BindView). b.id < c.id) bs × Ascending bs

All-insert_view :
    (P : BindView → Type 0) (b : BindView) (cs : List BindView)
    → P b
    → All P cs
    → All P (insert_view b cs)
unfolding insert_view
All-insert_view P b [] p h = (p, tt)
All-insert_view P b (c ∷ cs) p (q, h) = elim (Bool-cases (ltb c.id b.id)) [
  | inl e ↦ rw e (q, All-insert_view P b cs p h)
  | inr e ↦ rw e (p, (q, h))
]

All-lt_trans :
    (n m : ℕ) (cs : List BindView)
    → n < m
    → All (λ (c : BindView). m < c.id) cs
    → All (λ (c : BindView). n < c.id) cs
All-lt_trans n m cs l = All-map cs (λ c k. omega arith)

insert_view-Ascending :
    (b : BindView) (cs : List BindView)
    → All (λ (c : BindView). c.id ≢ b.id) cs
    → Ascending cs
    → Ascending (insert_view b cs)
unfolding insert_view
insert_view-Ascending b [] n a = (tt, tt)
insert_view-Ascending b (c ∷ cs) (n, ns) (h, a) = elim (Bool-cases (ltb c.id b.id)) [
  | inl e ↦
      rw e
        (All-insert_view (λ d. c.id < d.id) b cs (ground arith) h, insert_view-Ascending b cs ns a)
  | inr e ↦
      let l : b.id < c.id = ground (arith, n) in rw e ((l, All-lt_trans b.id c.id cs l h), (h, a))
]

insert_view-Perm : (b : BindView) (cs : List BindView) → Perm (insert_view b cs) (b ∷ cs)
unfolding insert_view
insert_view-Perm b [] = Perm.refl _
insert_view-Perm b (c ∷ cs) = elim (Bool-cases (ltb c.id b.id)) [
  | inl e ↦ rw e (Perm.trans (Perm.cons c (insert_view-Perm b cs)) (Perm.swap b c cs))
  | inr e ↦ rw e (Perm.refl _)
]

sort_views-Perm : (bs : List BindView) → Perm (sort_views bs) bs
unfolding sort_views
sort_views-Perm [] = Perm.refl _
sort_views-Perm (b ∷ bs) =
    Perm.trans (insert_view-Perm b (sort_views bs)) (Perm.cons b (sort_views-Perm bs))

All-sort_views :
    (P : BindView → Type 0) (bs : List BindInfo)
    → All (λ b. P (view_of_bind b)) bs
    → All P (sort_views (map view_of_bind bs))
unfolding sort_views
All-sort_views P [] h = tt
All-sort_views P (b ∷ bs) (p, h) =
    All-insert_view P (view_of_bind b) (sort_views (map view_of_bind bs)) p (All-sort_views P bs h)

sort_views-Ascending :
    (bs : List BindInfo) → DistinctIds bs → Ascending (sort_views (map view_of_bind bs))
unfolding sort_views
sort_views-Ascending [] d = tt
sort_views-Ascending (b ∷ bs) (h, d) =
    insert_view-Ascending (view_of_bind b) (sort_views (map view_of_bind bs))
      (All-sort_views (λ c. c.id ≢ b.id) bs h) (sort_views-Ascending bs d)

view_set : IsSet (List BindView)
view_set = hlevel

-- Of the entries of a map, however Go iterates over them: the view of the registry is one and the
-- same for each order of the iteration; it lists exactly the entries, by id upwards.
pub views_exact :
    (bs cs : List BindInfo)
    → DistinctIds bs
    → Perm bs cs
    → (views bs ≡ views cs) × Ascending (views bs) × Perm (views bs) (map view_of_bind bs)
unfolding views
views_exact bs cs d p = (
  ∥∥₁_elim p (view_set (views bs) (views cs)) (λ q. views-Permᴰ q d),
  sort_views-Ascending bs d,
  sort_views-Perm (map view_of_bind bs),
)
