-- ===== src/Interrupt/Host/Demands.antt =====
-- The demands of an event catalog are what the host asks of demands.
use grevir_core.Common.{
  ◌+◌, ◌≤◌, Bool, true, false, ◌&&◌, ◌||◌, List, [], ◌∷◌, map, ◌≡◌, inl, inr, refl, sym, ap, subst,
  arith, Among, All, All-at, Bool-cases,
}
use grevir_core.Interrupt.Catalog.{EventIdentity, text_eq, identity_eq, identity_lt}
use grevir_core.Interrupt.Sort.Sorted.{IsSorted, weight, tally, tally-sort}
use grevir_core.Interrupt.Sort.Members.{sort-Among}
use grevir_core.Interrupt.Handler.{Declared, names, valid_choice, is_direct, is_deferred}
use grevir_core.Interrupt.Demand.{Demand, CatalogEvent, present, collect, key_lt, demand_data}
use grevir_core.Interrupt.Demand.Laws.{demand_data-IsSorted}
use grevir_core.Interrupt.Events.{keys, valid_key}
use grevir_core.Interrupt.Events.Laws.{AreApart, AreNamed, IsAscending, ascending, once}
use grevir_core.Interrupt.Plan.{valid_choices}
use grevir_core.Interrupt.Plan.Members.{FromEvent, demands_all}
use grevir_core.Interrupt.Host.{identifiers, key_texts, known_route, valid_demands, demand_keys_of}
use grevir_core.Interrupt.Host.Keys.{identifier-valid_component}

abbrev key_of : CatalogEvent → EventIdentity
key_of e = e.key

-- Keys in order and once.
keys-IsSorted : (ds : List Demand) → IsSorted key_lt ds → IsSorted identity_lt (demand_keys_of ds)
keys-IsSorted [] h = tt
keys-IsSorted (d ∷ ds) (h, hs) = (mapped d ds h, keys-IsSorted ds hs)
  where
    mapped :
        (d : Demand) (ds : List Demand)
        → All (λ e. key_lt e d ≡ false) ds
        → All (λ k. identity_lt k d.key ≡ false) (demand_keys_of ds)
    mapped d [] h = tt
    mapped d (e ∷ ds) (h, hs) = (h, mapped d ds hs)

tally-keys :
    (p : EventIdentity → Bool) (ds : List Demand)
    → tally p (demand_keys_of ds) ≡ tally (λ d. p d.key) ds
tally-keys p [] = refl
tally-keys p (d ∷ ds) = ap (λ n. weight p d.key + n) (tally-keys p ds)

collect_fewer :
    (p : EventIdentity → Bool) (es : List CatalogEvent)
    → tally (λ d. p d.key) (collect es) ≤ tally p (map key_of es)
unfolding collect
collect_fewer p [] = omega arith
collect_fewer p (e ∷ es) = elim (Bool-cases (present e)) [
  | inl h ↦ rw h (omega (arith, collect_fewer p es))
  | inr h ↦ rw h (omega (arith, collect_fewer p es))
]

demanded_once :
    (es : List CatalogEvent)
    → AreApart es
    → (k : EventIdentity) → tally (identity_eq k) (demand_keys_of (demand_data es)) ≤ 1
unfolding demand_data
demanded_once es a k =
    rw
      (
        tally-keys (identity_eq k) (demand_data es),
        tally-sort (λ (d : Demand). identity_eq k d.key) key_lt (collect es),
      )
      (omega (arith, collect_fewer (identity_eq k) es, once es a k))

pub demand_data-IsAscending :
    (es : List CatalogEvent) → AreApart es → IsAscending (demand_keys_of (demand_data es))
demand_data-IsAscending es a =
    ascending (demand_keys_of (demand_data es))
      (keys-IsSorted (demand_data es) (demand_data-IsSorted es)) (demanded_once es a)

-- Names and routes.
known_route-names :
    (d : Declared)
    → valid_choice d ≡ true
    → (d.raw || d.event) ≡ true
    → known_route (names d) ≡ true
unfolding known_route names valid_choice is_direct is_deferred text_eq
known_route-names d h k = ground arith

key_of-Among :
    (es : List CatalogEvent) (e : CatalogEvent) → Among e es → Among e.key (map key_of es)
key_of-Among [] e m = absurd m
key_of-Among (x ∷ es) e (inl p) = inl (ap key_of p)
key_of-Among (x ∷ es) e (inr m) = inr (key_of-Among es e m)

pub named_event :
    (es : List CatalogEvent)
    → AreNamed (keys es)
    → (e : CatalogEvent) → Among e es
    → valid_key e.key ≡ true
unfolding keys
named_event es h e m =
    All-at _ _ h e.key (sort-Among identity_lt e.key (map key_of es) (key_of-Among es e m))

pub key_identifiers : (k : EventIdentity) → valid_key k ≡ true → identifiers (key_texts k) ≡ true
unfolding valid_key identifiers
key_identifiers k h = ground (
  arith,
  identifier-valid_component k.instance_name,
  identifier-valid_component k.request,
  identifier-valid_component k.kind,
)

choice_of :
    (es : List CatalogEvent)
    → valid_choices es ≡ true
    → (e : CatalogEvent) → Among e es
    → valid_choice e.declared ≡ true
unfolding valid_choices
choice_of [] h e m = absurd m
choice_of (x ∷ es) h e (inl p) =
    subst (λ (y : CatalogEvent). valid_choice y.declared ≡ true) p (ground (arith, h))
choice_of (x ∷ es) h e (inr m) = choice_of es (ground (arith, h)) e m

valid_demands_of :
    (es : List CatalogEvent)
    → AreNamed (keys es)
    → valid_choices es ≡ true
    → (ds : List Demand) → All (FromEvent es) ds
    → valid_demands ds ≡ true
unfolding valid_demands present
valid_demands_of es n c [] h = refl
valid_demands_of es n c (d ∷ ds) ((e, m, (p, r)), hs) =
    let k = key_identifiers e.key (named_event es n e m) in
    let v = known_route-names e.declared (choice_of es c e m) p in
    let row : (identifiers (key_texts d.key) && known_route d.named) ≡ true =
      subst (λ (x : Demand). (identifiers (key_texts x.key) && known_route x.named) ≡ true) (sym r)
        (ground (arith, k, v)) in
    ground (arith, row, valid_demands_of es n c ds hs)

pub demand_data-valid :
    (es : List CatalogEvent)
    → AreNamed (keys es)
    → valid_choices es ≡ true
    → valid_demands (demand_data es) ≡ true
demand_data-valid es n c = valid_demands_of es n c (demand_data es) (demands_all es)
