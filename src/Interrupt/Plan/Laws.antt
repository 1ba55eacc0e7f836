-- ===== src/Interrupt/Plan/Laws.antt =====
-- In an accepted plan, each event with a handler has its own binding, and each binding is for such an
-- event.
use grevir_core.Common.{
  true, Option, none, some, List, [], ◌∷◌, ◌++◌, ◌≡◌, ◌≢◌, ◌↔◌, inl, inr, refl, sym, ap, subst, ◌∙◌,
  arith, take, Among, All, All-of, All-at, Bool-cases,
}
use grevir_core.Interrupt.Catalog.{EventIdentity, identity_lt}
use grevir_core.Interrupt.Catalog.Order.{identity-IsComparison}
use grevir_core.Interrupt.Handler.{names}
use grevir_core.Interrupt.Demand.{Demand, CatalogEvent, present, demand_data}
use grevir_core.Interrupt.Binding.{BindingRecord, SelectedPlan, Problem}
use grevir_core.Interrupt.Binding.Valid.{Bound, Ascends, AllApart, IsPlan, validate_iff}
use grevir_core.Interrupt.Binding.Inventory.{Offered, IsInventory, validate_inventory_iff}
use grevir_core.Interrupt.Events.{collect_descriptors, event_catalog}
use grevir_core.Interrupt.Events.Laws.{all_events, collect_descriptors_lem}
use grevir_core.Interrupt.Plan.{
  Allocation, live_demand_set, demand_keys, accepted, checked_plan, binding_plan,
}
use grevir_core.Interrupt.Plan.Members.{
  demand_of, demands_all, key_of, keys_taken, key-Among, among_keys,
}

-- Keys that ascend strictly, behind the one before.
identity_lt_trans :
    (a b c : EventIdentity)
    → identity_lt a b ≡ true
    → identity_lt b c ≡ true
    → identity_lt a c ≡ true
unfolding identity_lt
identity_lt_trans a b c h k = let t = identity-IsComparison in ground (arith, t.trans a b c, h, k)

pub identity_lt_irrefl : (a : EventIdentity) → identity_lt a a ≢ true
unfolding identity_lt
identity_lt_irrefl a h = let t = identity-IsComparison in ground (arith, t.flips a a, h)

pub all_behind :
    (p : BindingRecord) (bs : List BindingRecord)
    → Ascends (some p) bs
    → All (λ b. identity_lt p.event b.event ≡ true) bs
all_behind p [] h = tt
all_behind p (b ∷ bs) h = (
  h.0,
  All-of _ bs (λ c m.
      identity_lt_trans p.event b.event c.event h.0 (All-at _ bs (all_behind b bs h.1) c m)),
)

apart :
    (x c : BindingRecord) (bs : List BindingRecord)
    → Ascends (some x) bs
    → Among c bs
    → x.event ≢ c.event
apart x c bs h m e =
    identity_lt_irrefl x.event
      (subst (λ k. identity_lt x.event k ≡ true) (sym e) (All-at _ bs (all_behind x bs h) c m))

Ascends-tail : (x : BindingRecord) (bs : List BindingRecord) → Ascends (some x) bs → Ascends none bs
Ascends-tail x [] h = tt
Ascends-tail x (b ∷ bs) h = h.1

one_binding :
    (bs : List BindingRecord)
    → Ascends none bs
    → (b c : BindingRecord) → Among b bs
    → Among c bs
    → b.event ≡ c.event
    → b ≡ c
one_binding [] h b c m n e = absurd m
one_binding (x ∷ bs) h b c (inl p) (inl q) e = sym p ∙ q
one_binding (x ∷ bs) h b c (inl p) (inr n) e =
    absurd (apart x c bs h n (ap (λ (y : BindingRecord). y.event) p ∙ e))
one_binding (x ∷ bs) h b c (inr m) (inl q) e =
    absurd (apart x b bs h m (ap (λ (y : BindingRecord). y.event) q ∙ sym e))
one_binding (x ∷ bs) h b c (inr m) (inr n) e = one_binding bs (Ascends-tail x bs h) b c m n e

abbrev pub BindingOf : EventIdentity → List BindingRecord → Type 0
BindingOf e bs = (b : BindingRecord) × Among b bs × (e ≡ b.event)

pub Bound-Among : (e : EventIdentity) (bs : List BindingRecord) → Bound e bs → BindingOf e bs
Bound-Among e [] h = absurd h
Bound-Among e (b ∷ bs) (inl p) = (b, inl refl, p)
Bound-Among e (b ∷ bs) (inr h) = let (c, m, p) = Bound-Among e bs h in (c, inr m, p)

-- The bindings in use serve exactly the events that have a handler.
pub record BindsOnce (es : List CatalogEvent) (problem : Problem) (bs : List BindingRecord)
    : Type 0 where
  pub served :
      (e : CatalogEvent)
      → Among e es
      → present e ≡ true
      → (b : BindingRecord) × Among b bs
        × (e.key ≡ b.event)
        × ((c : BindingRecord) → Among c bs → e.key ≡ c.event → b ≡ c)
  pub serves :
      (b : BindingRecord)
      → Among b bs
      → ((e : CatalogEvent) × Among e es × (present e ≡ true) × (e.key ≡ b.event))
        × Offered problem.requests b problem.candidates
  pub apart : AllApart [] bs

pub accepted_iff :
    (keys : List EventIdentity) (ds : List Demand) (a : Allocation)
    → (accepted keys ds a ≡ true) ↔ (
        IsInventory keys a.problem a.plan
        × (a.validates ds a.plan ≡ true)
        × IsPlan keys (demand_keys ds) a.plan)
unfolding accepted
accepted_iff keys ds a =
    ground (
      arith,
      validate_inventory_iff keys a.problem a.plan,
      validate_iff keys (demand_keys ds) a.plan,
    )

checked-BindsOnce :
    (es : List CatalogEvent) (keys : List EventIdentity) (problem : Problem) (plan : SelectedPlan)
    → IsInventory keys problem plan
    → IsPlan keys (demand_keys (demand_data es)) plan
    → BindsOnce es problem (take plan.count plan.bindings)
unfolding demand_keys
checked-BindsOnce es keys problem plan inventory valid =
    let ds = demand_data es in
    let bs = take plan.count plan.bindings in
    record {
      served = λ e m p.
          let k =
            key-Among (record { key = e.key; named = names e.declared }) ds (demand_of es e m p) in
          let (b, n, q) =
            Bound-Among e.key bs (All-at _ _ valid.complete e.key (rw (keys_taken ds) k)) in
          (b, n, q, λ c l r. one_binding bs valid.ascending b c n l (sym q ∙ r));
      serves = λ b m.
          let proper = All-at _ bs valid.proper b m in
          let (d, n, q) = among_keys b.event ds (rw (keys_taken ds) at proper.1) in
          let (e, l, (p, r)) = All-at _ ds (demands_all es) d n in
          ((e, l, p, sym (ap key_of r) ∙ q), All-at _ bs inventory.offered b m);
      apart = valid.distinct;
    }

pub checked_plan-some :
    (o : Option (List EventIdentity)) (p : Option (List Demand)) (a : Allocation) (ds : List Demand)
    (plan : SelectedPlan)
    → checked_plan o p a ≡ some (ds, plan)
    → (keys : List EventIdentity) × (o ≡ some keys)
      × (p ≡ some ds)
      × (a.plan ≡ plan)
      × (accepted keys ds a ≡ true)
unfolding checked_plan
checked_plan-some none p a ds plan h = cc
checked_plan-some (some keys) none a ds plan h = cc
checked_plan-some (some keys) (some demands) a ds plan h =
    elim (Bool-cases (accepted keys demands a)) [
      | inr e ↦ cc (rw e at h)
      | inl e ↦
          let q = rw e at h in
          (keys, refl, cc q, cc q, subst (λ x. accepted keys x a ≡ true) (cc q) e)
    ]

pub live_demand_set-some :
    (es : List CatalogEvent) (ds : List Demand) → live_demand_set es ≡ some ds → demand_data es ≡ ds
unfolding live_demand_set
live_demand_set-some es ds h = ground arith

-- Where the base library's `catr` puts a list in front of another: if `BindingPlan` accepts the plan of
-- the board, whatever the board's allocation is, then each event of the descriptors that has a handler
-- has exactly one of the bindings in use, each of these is for such an event and offered by an
-- unreserved candidate of the board's inventory that agrees with it, and no two bindings in use share a
-- source or an entry.
pub binding_plan-BindsOnce :
    (catr : List CatalogEvent → List CatalogEvent → List CatalogEvent)
    → ((xs ys : List CatalogEvent) → catr xs ys ≡ ys ++ xs)
    → (descriptors : List (List (Option (List CatalogEvent)))) (a : Allocation) (ds : List Demand)
      (plan : SelectedPlan)
    → binding_plan catr descriptors a ≡ some (ds, plan)
    → BindsOnce (all_events descriptors) a.problem (take plan.count plan.bindings)
unfolding binding_plan
binding_plan-BindsOnce catr catr_lem descriptors a ds plan h =
    let es = collect_descriptors catr descriptors in
    let (keys, made, demanded, same, ok) =
      checked_plan-some (event_catalog catr descriptors) (live_demand_set es) a ds plan h in
    let parts = (accepted_iff keys ds a).0 ok in
    let eq = live_demand_set-some es ds demanded in
    subst (λ p. BindsOnce (all_events descriptors) a.problem (take p.count p.bindings)) same
      (subst (λ xs. BindsOnce xs a.problem (take a.plan.count a.plan.bindings))
        (collect_descriptors_lem catr catr_lem descriptors)
        (checked-BindsOnce es keys a.problem a.plan parts.0
          (subst (λ xs. IsPlan keys (demand_keys xs) a.plan) (sym eq) parts.2)))
