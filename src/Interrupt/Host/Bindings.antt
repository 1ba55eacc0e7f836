-- ===== src/Interrupt/Host/Bindings.antt =====
-- The deferred context and the bindings of an accepted plan are what the host asks of them.
use grevir_core.Common.{
  ℕ, ◌≤◌, true, false, none, some, List, [], ◌∷◌, ◌≡◌, inl, inr, refl, ap, ◌∙◌, arith, Among, All,
}
use grevir_core.Interrupt.Catalog.{Text, EventIdentity, identity_lt, valid_component}
use grevir_core.Interrupt.Binding.{BindingRecord}
use grevir_core.Interrupt.Binding.Valid.{text_eq_iff, HasNames, Ascends}
use grevir_core.Interrupt.Demand.{Demand}
use grevir_core.Interrupt.Deferred.{selected, QueueBoard, deferred_plan}
use grevir_core.Interrupt.Deferred.Laws.{storage-valid, IsOffered, deferred_plan_iff}
use grevir_core.Interrupt.Events.{valid_key}
use grevir_core.Interrupt.Events.Laws.{IsAscending}
use grevir_core.Interrupt.Plan.Laws.{all_behind}
use grevir_core.Interrupt.Host.{
  identifier, identifiers, binding_keys_of, any_deferred, valid_context, valid_binding,
}
use grevir_core.Interrupt.Host.Keys.{identifier-valid_component}
use grevir_core.Interrupt.Host.Demands.{key_identifiers}

-- The deferred context.
same_deferred : (ds : List Demand) → any_deferred ds ≡ selected ds
unfolding any_deferred selected
same_deferred [] = refl
same_deferred (d ∷ ds) = ground (arith, same_deferred ds)

offered_context :
    (q : QueueBoard) (capacity : ℕ) (p : Text)
    → IsOffered q capacity p
    → (1 ≤ capacity) × (capacity ≤ 2048) × (identifier p ≡ true)
offered_context q capacity p o = (
  omega (arith, o.positive, o.capacity_lem),
  omega (arith, o.bounded, o.capacity_lem),
  identifier-valid_component p
      ∙ ap valid_component o.policy_lem
      ∙ storage-valid q.lock q.context o.lock o.context,
)

pub context_accepted :
    (q : QueueBoard) (ds : List Demand) (capacity : ℕ) (p : Text)
    → deferred_plan q ds ≡ some (capacity, p)
    → valid_context ds capacity p ≡ true
unfolding valid_context
context_accepted q ds capacity p h = elim ((deferred_plan_iff q ds capacity p).0 h) [
  | inl (off, zero_capacity, empty) ↦
      ground (arith, same_deferred ds, off, zero_capacity, text_eq_iff p [], empty)
  | inr (on, o) ↦ ground (arith, same_deferred ds, on, offered_context q capacity p o)
]

-- The bindings.
pub binding_keys-IsAscending :
    (bs : List BindingRecord) → Ascends none bs → IsAscending (binding_keys_of bs)
binding_keys-IsAscending [] h = tt
binding_keys-IsAscending (b ∷ []) h = (tt, tt)
binding_keys-IsAscending (b ∷ c ∷ bs) h =
    (mapped (c ∷ bs) (all_behind b (c ∷ bs) h), binding_keys-IsAscending (c ∷ bs) h.1)
  where
    mapped :
        (cs : List BindingRecord)
        → All (λ x. identity_lt b.event x.event ≡ true) cs
        → All (λ k. identity_lt b.event k ≡ true) (binding_keys_of cs)
    mapped [] h = tt
    mapped (x ∷ cs) (h, hs) = (h, mapped cs hs)

pub event-Among :
    (b : BindingRecord) (bs : List BindingRecord) → Among b bs → Among b.event (binding_keys_of bs)
event-Among b [] m = absurd m
event-Among b (x ∷ bs) (inl p) = inl (ap (λ (y : BindingRecord). y.event) p)
event-Among b (x ∷ bs) (inr m) = inr (event-Among b bs m)

pub among_events :
    (k : EventIdentity) (bs : List BindingRecord)
    → Among k (binding_keys_of bs)
    → (b : BindingRecord) × Among b bs × (b.event ≡ k)
among_events k [] m = absurd m
among_events k (b ∷ bs) (inl p) = (b, inl refl, p)
among_events k (b ∷ bs) (inr m) = let (c, n, p) = among_events k bs m in (c, inr n, p)

pub binding_accepted :
    (b : BindingRecord)
    → valid_key b.event ≡ true
    → HasNames b
    → b.dispatch_order ≤ 65535
    → b.shared_source ≡ false
    → valid_binding b ≡ true
unfolding valid_binding identifiers
binding_accepted b k n o s = ground (
  arith,
  key_identifiers b.event k,
  identifier-valid_component b.owner,
  identifier-valid_component b.configuration,
  identifier-valid_component b.source,
  identifier-valid_component b.selector,
  identifier-valid_component b.entry,
  identifier-valid_component b.snapshot_policy,
  identifier-valid_component b.acknowledge_policy,
  n.owner,
  n.configuration,
  n.source,
  n.selector,
  n.entry,
  n.snapshot_policy,
  n.acknowledge_policy,
  o,
  s,
)
