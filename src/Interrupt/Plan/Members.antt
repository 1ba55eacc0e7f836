-- ===== src/Interrupt/Plan/Members.antt =====
-- The demand set has a row for each event with a handler, and no other row.
use grevir_core.Common.{
  true, List, [], ◌∷◌, map, ◌≡◌, inl, inr, refl, ap, ◌∙◌, length, take, Among, All, Bool-cases,
}
use grevir_core.Interrupt.Catalog.{EventIdentity, identity_compare, identity_lt}
use grevir_core.Interrupt.Catalog.Order.{identity-IsComparison, IsOrder-of}
use grevir_core.Interrupt.Sort.Sorted.{sort_keeps}
use grevir_core.Interrupt.Sort.Members.{sort-Among}
use grevir_core.Interrupt.Handler.{names}
use grevir_core.Interrupt.Demand.{Demand, CatalogEvent, present, collect, key_lt, demand_data}

-- The event of the catalog that the row is of.
abbrev pub IsRowOf : CatalogEvent → Demand → Type 0
IsRowOf e d = (present e ≡ true) × (d ≡ record { key = e.key; named = names e.declared })

abbrev pub FromEvent : List CatalogEvent → Demand → Type 0
FromEvent es d = (e : CatalogEvent) × Among e es × IsRowOf e d

collect-Among :
    (es : List CatalogEvent) (e : CatalogEvent)
    → Among e es
    → present e ≡ true
    → Among (record { key = e.key; named = names e.declared }) (collect es)
unfolding collect
collect-Among [] e m p = absurd m
collect-Among (x ∷ es) e (inl q) p =
    rw (ap present q ∙ p)
      (inl (ap (λ (y : CatalogEvent). record { key = y.key; named = names y.declared }) q))
collect-Among (x ∷ es) e (inr m) p = elim (Bool-cases (present x)) [
  | inl h ↦ rw h (inr (collect-Among es e m p))
  | inr h ↦ rw h (collect-Among es e m p)
]

collect_all :
    (all es : List CatalogEvent)
    → ((e : CatalogEvent) → Among e es → Among e all)
    → All (FromEvent all) (collect es)
unfolding collect
collect_all all [] h = tt
collect_all all (x ∷ es) h = elim (Bool-cases (present x)) [
  | inl p ↦ rw p ((x, h x (inl refl), (p, refl)), collect_all all es (λ e m. h e (inr m)))
  | inr p ↦ rw p (collect_all all es (λ e m. h e (inr m)))
]

pub demand_of :
    (es : List CatalogEvent) (e : CatalogEvent)
    → Among e es
    → present e ≡ true
    → Among (record { key = e.key; named = names e.declared }) (demand_data es)
unfolding demand_data
demand_of es e m p = sort-Among key_lt _ (collect es) (collect-Among es e m p)

pub demands_all : (es : List CatalogEvent) → All (FromEvent es) (demand_data es)
unfolding demand_data identity_lt
demands_all es =
    sort_keeps key_lt (IsOrder-of identity_compare (λ (d : Demand). d.key) identity-IsComparison)
      (FromEvent es) (collect es) (collect_all es es (λ e m. m))

abbrev pub key_of : Demand → EventIdentity
key_of d = d.key

pub keys_taken : (ds : List Demand) → take (length ds) (map key_of ds) ≡ map key_of ds
keys_taken [] = refl
keys_taken (d ∷ ds) = ap (λ ks. d.key ∷ ks) (keys_taken ds)

pub key-Among : (d : Demand) (ds : List Demand) → Among d ds → Among d.key (map key_of ds)
key-Among d (x ∷ ds) (inl p) = inl (ap key_of p)
key-Among d (x ∷ ds) (inr m) = inr (key-Among d ds m)
key-Among d [] m = absurd m

pub among_keys :
    (k : EventIdentity) (ds : List Demand)
    → Among k (map key_of ds)
    → (d : Demand) × Among d ds × (d.key ≡ k)
among_keys k [] m = absurd m
among_keys k (d ∷ ds) (inl p) = (d, inl refl, p)
among_keys k (d ∷ ds) (inr m) = let (e, n, p) = among_keys k ds m in (e, inr n, p)
