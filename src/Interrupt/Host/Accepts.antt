-- ===== src/Interrupt/Host/Accepts.antt =====
-- The host tool accepts each record of a plan that the compiler accepted.
use grevir_core.Common.{
  ℕ, ◌≤◌, Bool, true, Option, some, List, [], map, ◌≡◌, ◌⊎◌, refl, sym, ap, subst, ◌∙◌, arith,
  length, length-take, take, Among, All, All-of, All-at, ==_iff,
}
use grevir_core.Interrupt.Catalog.{Text, EventIdentity}
use grevir_core.Interrupt.Binding.{BindingRecord, SelectedPlan}
use grevir_core.Interrupt.Binding.Valid.{text_eq_iff, AllApart, IsPlan}
use grevir_core.Interrupt.Demand.{Demand, CatalogEvent, demand_data}
use grevir_core.Interrupt.Deferred.{QueueBoard, deferred_plan}
use grevir_core.Interrupt.Events.{keys, valid_key, collect_descriptors, event_catalog}
use grevir_core.Interrupt.Events.Laws.{AreApart, AreNamed, IsAscending, unique_iff, valid_keys_iff}
use grevir_core.Interrupt.Plan.{
  Allocation, valid_choices, live_demand_set, demand_keys, binding_plan,
}
use grevir_core.Interrupt.Plan.Members.{demands_all, keys_taken, among_keys}
use grevir_core.Interrupt.Plan.Laws.{
  accepted_iff, checked_plan-some, live_demand_set-some, Bound-Among,
}
use grevir_core.Interrupt.Probe.{Inputs, board_texts, encode_probe_record}
use grevir_core.Interrupt.Decode.RoundTrip.{IsEncodable, decode-encode}
use grevir_core.Interrupt.Host.{
  Group, canonical_groups, identifiers, known_backend, valid_demands, demand_keys_of,
  binding_keys_of, valid_context, valid_binding,
}
use grevir_core.Interrupt.Host.Validate.{
  valid_inputs, valid_groups, validate_plan, host_plan, decode_plan,
}
use grevir_core.Interrupt.Host.Groups.{
  single, groups_single, Knows-none, validate_bindings-single, groups_eq_refl,
}
use grevir_core.Interrupt.Host.Keys.{keys_eq_refl, keys_ordered_ascending, ascending_same}
use grevir_core.Interrupt.Host.Demands.{demand_data-IsAscending, named_event, demand_data-valid}
use grevir_core.Interrupt.Host.Bindings.{
  context_accepted, binding_keys-IsAscending, event-Among, among_events, binding_accepted,
}

-- What an accepted catalog was accepted for.
catalog_accepted :
    (catr : List CatalogEvent → List CatalogEvent → List CatalogEvent)
    (descriptors : List (List (Option (List CatalogEvent)))) (ks : List EventIdentity)
    → event_catalog catr descriptors ≡ some ks
    → let es = collect_descriptors catr descriptors in AreApart es × AreNamed (keys es)
unfolding event_catalog
catalog_accepted catr descriptors ks h =
    let es = collect_descriptors catr descriptors in
    ground (arith, unique_iff es, valid_keys_iff (keys es), h)

choices_accepted :
    (es : List CatalogEvent) (ds : List Demand)
    → live_demand_set es ≡ some ds
    → valid_choices es ≡ true
unfolding live_demand_set
choices_accepted es ds h = ground (arith, h)

-- Plans whose validation the host repeats.
record Agrees (ds : List Demand) (bs : List BindingRecord) : Type 0 where
  sized : length ds ≡ length bs
  demands : valid_demands ds ≡ true
  ascends : IsAscending (demand_keys_of ds)
  bound : binding_keys_of bs ≡ demand_keys_of ds
  bindings : All (λ b. valid_binding b ≡ true) bs
  apart : AllApart [] bs

inputs_accepted :
    (r : Inputs)
    → Agrees r.demands r.selected
    → known_backend r.backend ≡ true
    → identifiers (board_texts r) ≡ true
    → valid_context r.demands r.capacity r.policy ≡ true
    → valid_inputs r ≡ true
unfolding valid_inputs
inputs_accepted r a backend board context =
    rw
      (
        backend,
        board,
        (==_iff (length r.demands) (length r.selected)).1 a.sized,
        a.demands,
        keys_ordered_ascending (demand_keys_of r.demands) a.ascends,
        context,
      )
      refl

module _ (fingerprint : Inputs → List Group → Text) where
  groups_accepted :
      (r : Inputs)
      → Agrees r.demands r.selected
      → valid_groups fingerprint (host_plan fingerprint r) (map single r.selected) ≡ true
  unfolding valid_groups host_plan
  groups_accepted r a =
      let gs = canonical_groups (map single r.selected) in
      rw
        (
          a.bound,
          groups_single [] r.selected a.apart,
          keys_eq_refl (demand_keys_of r.demands),
          groups_eq_refl gs,
          (text_eq_iff (fingerprint r gs) (fingerprint r gs)).1 refl,
        )
        refl

  Agrees-accepted :
      (r : Inputs)
      → Agrees r.demands r.selected
      → valid_inputs r ≡ true
      → validate_plan fingerprint (host_plan fingerprint r) ≡ some (host_plan fingerprint r)
  unfolding validate_plan host_plan
  Agrees-accepted r a inputs =
      rw
        (
          inputs,
          validate_bindings-single [] [] r.selected Knows-none a.apart a.bindings,
          groups_accepted r a,
        )
        refl

-- The checks of the compiler imply those of the host.
Agrees-made :
    (es : List CatalogEvent) (ks : List EventIdentity) (plan : SelectedPlan)
    → AreApart es
    → AreNamed (keys es)
    → valid_choices es ≡ true
    → IsPlan ks (demand_keys (demand_data es)) plan
    → All (λ b. b.dispatch_order ≤ 65535) (take plan.count plan.bindings)
    → Agrees (demand_data es) (take plan.count plan.bindings)
unfolding demand_keys
Agrees-made es ks plan apart named choices valid orders =
    let ds = demand_data es in
    let bs = take plan.count plan.bindings in
    let keys_are = keys_taken ds in
    let key_valid : (b : BindingRecord) → Among b bs → valid_key b.event ≡ true = λ b m.
      let (d, n, q) = among_keys b.event ds (rw keys_are at (All-at _ bs valid.proper b m).1) in
      let (e, l, (p, row)) = All-at _ ds (demands_all es) d n in
      subst (λ k. valid_key k ≡ true) (sym (ap (λ (x : Demand). x.key) row) ∙ q)
        (named_event es named e l) in
    record {
      sized = omega (arith, length-take plan.count plan.bindings, valid.room, valid.counted);
      demands = demand_data-valid es named choices;
      ascends = demand_data-IsAscending es apart;
      bound =
          ascending_same (binding_keys_of bs) (demand_keys_of ds)
            (binding_keys-IsAscending bs valid.ascending) (demand_data-IsAscending es apart)
            (λ k m.
              let (b, n, q) = among_events k bs m in
              subst (λ l. Among l (demand_keys_of ds)) q
                (rw keys_are at (All-at _ bs valid.proper b n).1))
            (λ k m.
              let (b, n, q) = Bound-Among k bs (All-at _ _ valid.complete k (rw keys_are m)) in
              subst (λ l. Among l (binding_keys_of bs)) (sym q) (event-Among b bs n));
      bindings = All-of _ bs (λ b m.
          let proper = All-at _ bs valid.proper b m in
          binding_accepted b (key_valid b m) proper.3 (All-at _ bs orders b m) proper.2);
      apart = valid.distinct;
    }

plan-Agrees :
    (catr : List CatalogEvent → List CatalogEvent → List CatalogEvent)
    (descriptors : List (List (Option (List CatalogEvent)))) (a : Allocation) (ds : List Demand)
    (plan : SelectedPlan)
    → binding_plan catr descriptors a ≡ some (ds, plan)
    → All (λ b. b.dispatch_order ≤ 65535) (take plan.count plan.bindings)
    → Agrees ds (take plan.count plan.bindings)
unfolding binding_plan
plan-Agrees catr descriptors a ds plan h orders =
    let es = collect_descriptors catr descriptors in
    let (ks, made, demanded, same, ok) =
      checked_plan-some (event_catalog catr descriptors) (live_demand_set es) a ds plan h in
    let (apart, named) = catalog_accepted catr descriptors ks made in
    let valid = ((accepted_iff ks ds a).0 ok).2 in
    let eq = live_demand_set-some es ds demanded in
    subst (λ xs. Agrees xs (take plan.count plan.bindings)) eq
      (Agrees-made es ks plan apart named (choices_accepted es ds demanded)
        (subst (λ p. IsPlan ks (demand_keys (demand_data es)) p) same
          (subst (λ xs. IsPlan ks (demand_keys xs) a.plan) (sym eq) valid))
        orders)

-- If the compiler accepts a binding plan and a deferred context, and the probe record is made of them
-- with a known backend, valid names of the board, and texts and numbers that its fields can hold, then
-- there is a record, and the host tool accepts it: it decodes exactly the inputs, groups the bindings by
-- their sources, and none of its own checks of names, routes, keys, context, groups and fingerprint
-- fails, whatever the fingerprint is.
pub decode_plan-accepts :
    (catr : List CatalogEvent → List CatalogEvent → List CatalogEvent)
    (descriptors : List (List (Option (List CatalogEvent)))) (a : Allocation) (q : QueueBoard)
    (plan : SelectedPlan) (r : Inputs)
    → binding_plan catr descriptors a ≡ some (r.demands, plan)
    → r.selected ≡ take plan.count plan.bindings
    → deferred_plan q r.demands ≡ some (r.capacity, r.policy)
    → known_backend r.backend ≡ true
    → identifiers (board_texts r) ≡ true
    → (is_utf8 : Text → Bool) → IsEncodable is_utf8 r
    → (fingerprint : Inputs → List Group → Text) (width : ℕ) → (width ≡ 32) ⊎ (width ≡ 64)
    → (out : List ℕ) × (encode_probe_record width r ≡ some out)
      × (decode_plan fingerprint is_utf8 out ≡ some (host_plan fingerprint r))
unfolding decode_plan
decode_plan-accepts catr descriptors a q plan r h same context backend board is_utf8 v fingerprint
      width w =
    let (out, made, back) = decode-encode is_utf8 r v width w in
    let orders : All (λ b. b.dispatch_order ≤ 65535) r.selected =
      All-of _ r.selected (λ b m. (All-at _ r.selected v.selected b m).1) in
    let agrees = subst (Agrees r.demands) (sym same) (
      plan-Agrees catr descriptors a r.demands plan h
        (subst (All (λ b. b.dispatch_order ≤ 65535)) same orders)) in
    (
      out,
      made,
      rw (back, decode_plan)
          (Agrees-accepted fingerprint r agrees (
            inputs_accepted r agrees backend board
              (context_accepted q r.demands r.capacity r.policy context))),
    )
