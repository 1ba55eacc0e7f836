-- ===== src/Interrupt/Plan/Samples.antt =====
-- An application of three events, of which the middle one has no handler, and a board that binds the
-- others.
use grevir_core.Common.{ℕ, Bool, true, false, Option, none, some, List, [], ◌∷◌, ◌++◌, ◌≡◌, refl}
use grevir_core.Event.Route.{main_loop, elide}
use grevir_core.Interrupt.Catalog.{
  identity_eq, identity_lt, identity_compare, text_eq, text_compare, valid_component, all_valid,
  valid_character,
}
use grevir_core.Interrupt.Handler.{valid_choice, names, is_direct, is_deferred}
use grevir_core.Interrupt.Sort.{sort, sort_rounds, exchange}
use grevir_core.Interrupt.Demand.{Demand, CatalogEvent, present, collect, demand_data}
use grevir_core.Interrupt.Binding.{
  validate, check_bindings, check_binding, check_order, check_earlier, check_demands, valid_names,
  has_event, is_bound, validate_inventory, matches, requested_once, owned, needs_pwm, fits,
  is_offered, all_offered,
}
use grevir_core.Interrupt.Events.{
  request_events, concat, collect_requests, collect_descriptors, is_new, unique, keys, valid_key,
  valid_keys, event_catalog,
}
use grevir_core.Interrupt.Samples.{event_of, binding_of, candidate_of}
use grevir_core.Interrupt.Plan.{
  Allocation, valid_choices, live_demand_set, demand_keys, accepted, checked_plan, binding_plan,
}

abbrev pub in_front : List CatalogEvent → List CatalogEvent → List CatalogEvent
in_front xs ys = ys ++ xs

abbrev pub with_handler : ℕ → Bool → CatalogEvent
with_handler c handled = record {
  key = event_of c;
  declared = record {
    raw = false;
    event = handled;
    route = record { context = main_loop; delivery = elide };
  };
}

abbrev pub two_descriptors : List (List (Option (List CatalogEvent)))
two_descriptors =
    (some (with_handler b'c' true ∷ with_handler b'b' false ∷ []) ∷ none ∷ [])
    ∷ (some (with_handler b'a' true ∷ []) ∷ [])
    ∷ []

abbrev pub allocation : Allocation
allocation = record {
  plan = record {
    bindings = binding_of b'a' ∷ binding_of b'c' ∷ [];
    count = 2;
    allocation_ok = true;
    search_exhausted = false;
  };
  problem = record {
    requests =
        record { event = event_of b'a'; pwm_required = false }
        ∷ record { event = event_of b'b'; pwm_required = false }
        ∷ record { event = event_of b'c'; pwm_required = false }
        ∷ [];
    candidates = candidate_of b'c' ∷ candidate_of b'a' ∷ [];
  };
  validates = λ demands plan. true;
}

abbrev pub two_demands : List Demand
two_demands =
    record { key = event_of b'a'; named = names (with_handler b'a' true).declared }
    ∷ record { key = event_of b'c'; named = names (with_handler b'c' true).declared }
    ∷ []

pub binding_plan-two :
    binding_plan in_front two_descriptors allocation ≡ some (two_demands, allocation.plan)
unfolding binding_plan checked_plan accepted demand_keys live_demand_set valid_choices valid_choice
    is_direct is_deferred event_catalog collect_descriptors collect_requests concat request_events
    unique is_new keys valid_keys valid_key valid_component all_valid valid_character sort
    sort_rounds exchange identity_lt identity_compare identity_eq text_eq text_compare demand_data
    collect present validate check_bindings check_binding check_order check_earlier check_demands
    valid_names has_event is_bound validate_inventory matches requested_once owned needs_pwm fits
    is_offered all_offered
binding_plan-two = refl
