-- ===== src/Interrupt/Binding/Valid.antt =====
-- What `validate` accepts, described without its loops.
use grevir_core.Common.{
  ◌≤◌, true, false, List, [], ◌∷◌, ◌++◌, Option, none, some, ◌≡◌, ◌≢◌, ◌↔◌, ◌⊎◌, refl, arith,
  length, take,
}
use grevir_core.Common.{All, Among}
use grevir_core.Interrupt.Catalog.{
  Text, EventIdentity, text_eq, identity_eq, identity_lt, valid_component,
}
use grevir_core.Interrupt.Binding.{
  BindingRecord, SelectedPlan, DemandKeys, no_error, has_event, is_bound, valid_names, check_order,
  check_earlier, last_of, check_binding, check_bindings, check_demands, validate,
}

pub text_eq_iff : (a b : Text) → (text_eq a b ≡ true) ↔ (a ≡ b)
unfolding text_eq
text_eq_iff [] [] = (λ _. refl, λ _. refl)
text_eq_iff [] (y ∷ ys) = ground arith
text_eq_iff (x ∷ xs) [] = ground arith
text_eq_iff (x ∷ xs) (y ∷ ys) = ground (arith, text_eq_iff xs ys)

pub identity_eq_iff : (a b : EventIdentity) → (identity_eq a b ≡ true) ↔ (a ≡ b)
unfolding identity_eq
identity_eq_iff a b = ground (
  arith,
  text_eq_iff a.instance_name b.instance_name,
  text_eq_iff a.request b.request,
  text_eq_iff a.kind b.kind,
)

abbrev pub Bound : EventIdentity → List BindingRecord → Type 0
Bound e [] = ⊥
Bound e (b ∷ bs) = (e ≡ b.event) ⊎ Bound e bs

pub record HasNames (b : BindingRecord) : Type 0 where
  pub owner : valid_component b.owner ≡ true
  pub configuration : valid_component b.configuration ≡ true
  pub source : valid_component b.source ≡ true
  pub selector : valid_component b.selector ≡ true
  pub entry : valid_component b.entry ≡ true
  pub snapshot_policy : valid_component b.snapshot_policy ≡ true
  pub acknowledge_policy : valid_component b.acknowledge_policy ≡ true

-- The two bindings share neither a source nor an entry.
abbrev pub IsApart : BindingRecord → BindingRecord → Type 0
IsApart b x = (x.source ≢ b.source) × (x.entry ≢ b.entry)

-- Each binding is apart from all before it.
abbrev pub AllApart : List BindingRecord → List BindingRecord → Type 0
AllApart earlier [] = Unit {0}
AllApart earlier (b ∷ bs) = All (IsApart b) earlier × AllApart (earlier ++ b ∷ []) bs

-- The events ascend strictly, from that of the binding before, if there is one.
abbrev pub Ascends : Option BindingRecord → List BindingRecord → Type 0
Ascends p [] = Unit {0}
Ascends none (b ∷ bs) = Ascends (some b) bs
Ascends (some p) (b ∷ bs) = (identity_lt p.event b.event ≡ true) × Ascends (some b) bs

abbrev pub IsProper : List EventIdentity → List EventIdentity → BindingRecord → Type 0
IsProper catalog demanded b =
    Among b.event catalog × Among b.event demanded × (b.shared_source ≡ false) × HasNames b

has_event_iff : (e : EventIdentity) (xs : List EventIdentity) → (has_event e xs ≡ true) ↔ Among e xs
unfolding has_event
has_event_iff e [] = ground arith
has_event_iff e (x ∷ xs) = ground (arith, identity_eq_iff x e, has_event_iff e xs)

is_bound_iff : (e : EventIdentity) (bs : List BindingRecord) → (is_bound e bs ≡ true) ↔ Bound e bs
unfolding is_bound
is_bound_iff e [] = ground arith
is_bound_iff e (b ∷ bs) = ground (arith, identity_eq_iff e b.event, is_bound_iff e bs)

valid_names_iff : (b : BindingRecord) → (valid_names b ≡ true) ↔ HasNames b
unfolding valid_names
valid_names_iff b = ground arith

check_earlier_iff :
    (xs : List BindingRecord) (b : BindingRecord)
    → (check_earlier xs b ≡ no_error) ↔ All (IsApart b) xs
unfolding check_earlier
check_earlier_iff [] b = ground arith
check_earlier_iff (x ∷ xs) b =
    ground
      (arith, text_eq_iff x.source b.source, text_eq_iff x.entry b.entry, check_earlier_iff xs b)

last_of-append : (xs : List BindingRecord) (b : BindingRecord) → last_of (xs ++ b ∷ []) ≡ some b
last_of-append [] b = refl
last_of-append (x ∷ []) b = refl
last_of-append (x ∷ y ∷ xs) b = last_of-append (y ∷ xs) b

check_order_iff :
    (p : Option BindingRecord) (b : BindingRecord)
    → (check_order p b ≡ no_error) ↔ Ascends p (b ∷ [])
unfolding check_order
check_order_iff none b = ground arith
check_order_iff (some p) b = ground arith

module _ (catalog demanded : List EventIdentity) where
  check_binding_iff :
      (earlier : List BindingRecord) (b : BindingRecord)
      → (check_binding catalog demanded earlier b ≡ no_error) ↔ (
          IsProper catalog demanded b
          × Ascends (last_of earlier) (b ∷ [])
          × All (IsApart b) earlier)
  unfolding check_binding
  check_binding_iff earlier b = ground (
    arith,
    has_event_iff b.event catalog,
    has_event_iff b.event demanded,
    valid_names_iff b,
    check_order_iff (last_of earlier) b,
    check_earlier_iff earlier b,
  )

  Ascends-cons :
      (p : Option BindingRecord) (b : BindingRecord) (bs : List BindingRecord)
      → Ascends p (b ∷ bs) ↔ (Ascends p (b ∷ []) × Ascends (some b) bs)
  Ascends-cons none b bs = ground arith
  Ascends-cons (some p) b bs = ground arith

  check_bindings_iff :
      (earlier bs : List BindingRecord)
      → (check_bindings catalog demanded earlier bs ≡ no_error)
        ↔ (All (IsProper catalog demanded) bs × Ascends (last_of earlier) bs × AllApart earlier bs)
  unfolding check_bindings
  check_bindings_iff earlier [] = ground arith
  check_bindings_iff earlier (b ∷ bs) =
      let rest = rw (last_of-append earlier b) at (check_bindings_iff (earlier ++ b ∷ []) bs) in
      ground (arith, check_binding_iff earlier b, rest, Ascends-cons (last_of earlier) b bs)

check_demands_iff :
    (es : List EventIdentity) (bs : List BindingRecord)
    → (check_demands es bs ≡ no_error) ↔ All (λ e. Bound e bs) es
unfolding check_demands
check_demands_iff [] bs = ground arith
check_demands_iff (e ∷ es) bs = ground (arith, is_bound_iff e bs, check_demands_iff es bs)

-- A plan that may be used: found without running out of budget, as many bindings as demands, each
-- for an event of the catalog that is demanded, with valid names and its own source; the events
-- ascend strictly, no two bindings share a source or an entry, and every demand is bound.
pub record IsPlan (catalog : List EventIdentity) (demands : DemandKeys) (plan : SelectedPlan)
    : Type 0 where
  pub searched : plan.search_exhausted ≡ false
  pub allocated : plan.allocation_ok ≡ true
  pub counted : plan.count ≡ demands.count
  pub room : plan.count ≤ length plan.bindings
  pub proper :
      All (IsProper catalog (take demands.count demands.keys)) (take plan.count plan.bindings)
  pub ascending : Ascends none (take plan.count plan.bindings)
  pub distinct : AllApart [] (take plan.count plan.bindings)
  pub complete :
      All (λ e. Bound e (take plan.count plan.bindings)) (take demands.count demands.keys)

-- `validate` reports no error exactly for a plan that was found within its budget and has as many
-- bindings as there are demands, and that many places; whose bindings in use are each for a demanded
-- event of the catalog, unshared and validly named, ascend strictly by event, and share no source and
-- no entry; and which binds every demand.
pub validate_iff :
    (catalog : List EventIdentity) (demands : DemandKeys) (plan : SelectedPlan)
    → (validate catalog demands plan ≡ no_error) ↔ IsPlan catalog demands plan
unfolding validate
validate_iff catalog demands plan =
    let demanded = take demands.count demands.keys in
    let bound = take plan.count plan.bindings in
    ground (arith, check_bindings_iff catalog demanded [] bound, check_demands_iff demanded bound)
