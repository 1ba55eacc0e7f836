-- ===== src/Interrupt/Events/Tests.antt =====
-- Two descriptors, one of whose requests has no interrupt events; the collected keys are sorted.
use grevir_core.Common.{ℕ, Option, true, false, none, some, List, [], ◌∷◌, ◌++◌, ◌≡◌, refl}
use grevir_core.Event.Route.{isr_level, direct}
use grevir_core.Interrupt.Catalog.{
  identity_eq, identity_lt, identity_compare, text_eq, text_compare, valid_component, all_valid,
  valid_character,
}
use grevir_core.Interrupt.Sort.{sort, sort_rounds, exchange}
use grevir_core.Interrupt.Demand.{CatalogEvent}
use grevir_core.Interrupt.Events.{
  request_events, concat, collect_requests, collect_descriptors, is_new, unique, keys, valid_key,
  valid_keys, event_catalog,
}
use grevir_core.Interrupt.Events.Laws.{all_events, Decided, event_catalog-Decided}

abbrev joined : List CatalogEvent → List CatalogEvent → List CatalogEvent
joined xs ys = ys ++ xs

abbrev event_named : List ℕ → CatalogEvent
event_named kind = record {
  key = record { instance_name = b'a' ∷ []; request = b'r' ∷ []; kind = kind };
  declared = record {
    raw = true;
    event = false;
    route = record { context = isr_level; delivery = direct };
  };
}

abbrev first_event : CatalogEvent
first_event = event_named (b'f' ∷ [])

abbrev second_event : CatalogEvent
second_event = event_named (b's' ∷ [])

abbrev descriptors : List (List (Option (List CatalogEvent)))
descriptors = (some (second_event ∷ []) ∷ none ∷ []) ∷ (some (first_event ∷ []) ∷ []) ∷ []

event_catalog-descriptors :
    event_catalog joined descriptors ≡ some (first_event.key ∷ second_event.key ∷ [])
unfolding event_catalog collect_descriptors collect_requests concat request_events unique is_new
    keys valid_keys valid_key valid_component all_valid valid_character sort sort_rounds exchange
    identity_lt identity_compare identity_eq text_eq text_compare
event_catalog-descriptors = refl

event_catalog-twice : event_catalog joined (descriptors ++ descriptors) ≡ none
unfolding event_catalog collect_descriptors collect_requests concat request_events unique is_new
    identity_eq text_eq
event_catalog-twice = refl

event_catalog-Decided_example : Decided (all_events descriptors) (event_catalog joined descriptors)
event_catalog-Decided_example = event_catalog-Decided joined (λ xs ys. refl) descriptors
