-- ===== src/Interrupt/Events/Laws.antt =====
-- An event catalog has every event's key once and in order, or a key is used twice or has no valid name.
use grevir_core.Common.{
  ◌≤◌, Bool, true, false, ◌&&◌, Option, none, some, List, [], ◌∷◌, ◌++◌, map, ◌≡◌, ◌≢◌, ◌↔◌, inl,
  inr, refl, sym, ap, subst, ◌∙◌, arith, Among, All, All-of, All-at, Bool-cases, if◌then◌else◌,
}
use grevir_core.Interrupt.Catalog.{EventIdentity, identity_eq, identity_lt, identity_compare}
use grevir_core.Interrupt.Catalog.Order.{identity-IsComparison, IsOrder-of}
use grevir_core.Interrupt.Binding.Valid.{identity_eq_iff}
use grevir_core.Interrupt.Sort.Sorted.{
  IsSorted, IsOrder, sort-IsSorted, sort_keeps, tally, tally-sort,
}
use grevir_core.Interrupt.Demand.{CatalogEvent}
use grevir_core.Interrupt.Events.{
  request_events, concat, collect_requests, collect_descriptors, find, is_new, unique, keys,
  valid_key, valid_keys, event_catalog,
}

abbrev key_of : CatalogEvent → EventIdentity
key_of e = e.key

-- The events of the requests, in order.
abbrev pub events_of : List (Option (List CatalogEvent)) → List CatalogEvent
events_of [] = []
events_of (none ∷ rs) = events_of rs
events_of (some es ∷ rs) = es ++ events_of rs

abbrev pub all_events : List (List (Option (List CatalogEvent))) → List CatalogEvent
all_events [] = []
all_events (d ∷ ds) = events_of d ++ all_events ds

-- No two events have the same key.
abbrev pub AreApart : List CatalogEvent → Type 0
AreApart [] = Unit {0}
AreApart (e ∷ es) = All (λ (f : CatalogEvent). e.key ≢ f.key) es × AreApart es

abbrev pub AreNamed : List EventIdentity → Type 0
AreNamed ks = All (λ k. valid_key k ≡ true) ks

-- Each key is before all later ones.
abbrev pub IsAscending : List EventIdentity → Type 0
IsAscending [] = Unit {0}
IsAscending (k ∷ ks) = All (λ l. identity_lt k l ≡ true) ks × IsAscending ks

pub record IsCatalog (es : List CatalogEvent) (ks : List EventIdentity) : Type 0 where
  pub ascends : IsAscending ks
  pub keeps :
      (p : EventIdentity → Bool) → tally p ks ≡ tally p (map (λ (e : CatalogEvent). e.key) es)
  pub named : AreNamed ks
  pub found : (e : CatalogEvent) → Among e es → find e.key es ≡ some e

-- A catalog, or the reason for none.
abbrev pub Decided : List CatalogEvent → Option (List EventIdentity) → Type 0
Decided es none = ¬ (AreApart es × AreNamed (map (λ (e : CatalogEvent). e.key) es))
Decided es (some ks) = IsCatalog es ks

is_new_iff :
    (k : EventIdentity) (es : List CatalogEvent)
    → (is_new k es ≡ true) ↔ All (λ (f : CatalogEvent). k ≢ f.key) es
unfolding is_new
is_new_iff k [] = (λ _. tt, λ _. refl)
is_new_iff k (e ∷ es) = ground (arith, identity_eq_iff k e.key, is_new_iff k es)

pub unique_iff : (es : List CatalogEvent) → (unique es ≡ true) ↔ AreApart es
unfolding unique
unique_iff [] = (λ _. tt, λ _. refl)
unique_iff (e ∷ es) = ground (arith, is_new_iff e.key es, unique_iff es)

pub valid_keys_iff : (ks : List EventIdentity) → (valid_keys ks ≡ true) ↔ AreNamed ks
unfolding valid_keys
valid_keys_iff [] = (λ _. tt, λ _. refl)
valid_keys_iff (k ∷ ks) = ground (arith, valid_keys_iff ks)

find_lem :
    (es : List CatalogEvent)
    → AreApart es
    → (e : CatalogEvent) → Among e es
    → find e.key es ≡ some e
unfolding find
find_lem [] a e m = absurd m
find_lem (x ∷ es) a e (inl p) = ground (arith, identity_eq_iff e.key x.key, ap key_of p, p)
find_lem (x ∷ es) a e (inr m) =
    ground (arith, identity_eq_iff e.key x.key, All-at _ es a.0 e m, find_lem es a.1 e m)

absent :
    (k : EventIdentity) (es : List CatalogEvent)
    → All (λ (f : CatalogEvent). k ≢ f.key) es
    → tally (identity_eq k) (map key_of es) ≡ 0
absent k [] a = refl
absent k (e ∷ es) a = ground (arith, identity_eq_iff k e.key, a.0, absent k es a.1)

pub once :
    (es : List CatalogEvent)
    → AreApart es
    → (k : EventIdentity) → tally (identity_eq k) (map key_of es) ≤ 1
once [] a k = omega arith
once (e ∷ es) a k = elim (Bool-cases (identity_eq k e.key)) [
  | inl p ↦
      let q = (identity_eq_iff k e.key).0 p in
      let n = absent k es (subst (λ l. All (λ (f : CatalogEvent). l ≢ f.key) es) (sym q) a.0) in
      rw p (omega (arith, n))
  | inr p ↦ rw p (omega (arith, once es a.1 k))
]

differs :
    (x : EventIdentity) (ks : List EventIdentity)
    → tally (identity_eq x) ks ≡ 0
    → All (λ y. identity_eq x y ≡ false) ks
differs x [] h = tt
differs x (y ∷ ks) h = elim (Bool-cases (identity_eq x y)) [
  | inl p ↦ ground (arith, p, h)
  | inr p ↦ (p, differs x ks (ground (arith, p, h)))
]

before :
    (x y : EventIdentity)
    → identity_lt y x ≡ false
    → identity_eq x y ≡ false
    → identity_lt x y ≡ true
unfolding identity_lt
before x y h n =
    let c = identity-IsComparison in
    ground (arith, c.flips x y, c.eq_of x y, identity_eq_iff x y, h, n)

pub ascending :
    (ks : List EventIdentity)
    → IsSorted identity_lt ks
    → ((k : EventIdentity) → tally (identity_eq k) ks ≤ 1)
    → IsAscending ks
ascending [] s h = tt
ascending (x ∷ ks) s h =
    let self = (identity_eq_iff x x).1 refl in
    let apart = differs x ks (ground (arith, h x, self)) in
    (
      All-of _ ks (λ y m. before x y (All-at _ ks s.0 y m) (All-at _ ks apart y m)),
      ascending ks s.1 (λ k. omega (arith, h k)),
    )

pub identity_lt-IsOrder : IsOrder identity_lt
unfolding identity_lt
identity_lt-IsOrder = IsOrder-of identity_compare (λ (k : EventIdentity). k) identity-IsComparison

keys-IsCatalog :
    (es : List CatalogEvent) → AreApart es → AreNamed (keys es) → IsCatalog es (keys es)
unfolding keys
keys-IsCatalog es a n = record {
  ascends =
      ascending (keys es) (sort-IsSorted identity_lt identity_lt-IsOrder (map key_of es))
        (λ k. rw (tally-sort (identity_eq k) identity_lt (map key_of es)) (once es a k));
  keeps = λ p. tally-sort p identity_lt (map key_of es);
  named = n;
  found = find_lem es a;
}

AreNamed-keys : (es : List CatalogEvent) → AreNamed (map key_of es) → AreNamed (keys es)
unfolding keys
AreNamed-keys es =
    sort_keeps identity_lt identity_lt-IsOrder (λ k. valid_key k ≡ true) (map key_of es)

checked-Decided :
    (es : List CatalogEvent)
    → Decided es (if unique es && valid_keys (keys es) then some (keys es) else none)
checked-Decided es = elim (Bool-cases (unique es)) [
  | inr u ↦ rw u (λ h. cc (u, (unique_iff es).1 h.0))
  | inl u ↦ elim (Bool-cases (valid_keys (keys es))) [
    | inr v ↦ rw (u, v) (λ h. cc (v, (valid_keys_iff (keys es)).1 (AreNamed-keys es h.1)))
    | inl v ↦ rw (u, v) (keys-IsCatalog es ((unique_iff es).0 u) ((valid_keys_iff (keys es)).0 v))
  ]
]

module _ (catr : List CatalogEvent → List CatalogEvent → List CatalogEvent)
    (catr_lem : (xs ys : List CatalogEvent) → catr xs ys ≡ ys ++ xs) where
  collect_requests_lem :
      (rs : List (Option (List CatalogEvent))) → collect_requests catr rs ≡ events_of rs
  unfolding collect_requests concat request_events
  collect_requests_lem [] = refl
  collect_requests_lem (none ∷ rs) =
      catr_lem (collect_requests catr rs) [] ∙ collect_requests_lem rs
  collect_requests_lem (some es ∷ rs) =
      catr_lem (collect_requests catr rs) es ∙ ap (λ xs. es ++ xs) (collect_requests_lem rs)

  pub collect_descriptors_lem :
      (ds : List (List (Option (List CatalogEvent)))) → collect_descriptors catr ds ≡ all_events ds
  unfolding collect_descriptors concat
  collect_descriptors_lem [] = refl
  collect_descriptors_lem (d ∷ ds) =
      catr_lem (collect_descriptors catr ds) (collect_requests catr d)
      ∙ (ap (λ xs. xs ++ collect_descriptors catr ds) (collect_requests_lem d)
          ∙ ap (λ xs. events_of d ++ xs) (collect_descriptors_lem ds))

  -- Where the base library's `catr` puts a list in front of another, the event catalog of any
  -- descriptors either has the key of each of their events, each with valid names and strictly before
  -- the next ones, and a lookup by an event's key finds that event; or it is refused, and then two
  -- events have one key or a key has a name that is not valid.
  pub event_catalog-Decided :
      (ds : List (List (Option (List CatalogEvent))))
      → Decided (all_events ds) (event_catalog catr ds)
  unfolding event_catalog
  event_catalog-Decided ds = rw (collect_descriptors_lem ds) (checked-Decided (all_events ds))
