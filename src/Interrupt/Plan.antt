-- ===== src/Interrupt/Plan.antt =====
-- src/grevir/interrupt/binding.hpp, `BindingPlan`: the plan that a board's allocation makes for the events
-- of an application, after all checks; and `LiveDemandSet` of demand.hpp. A failed static assertion is
-- `none`.
pub mod Members
pub mod Laws
pub mod Samples
mod Tests
use grevir_core.Common.{
  Bool, true, false, not, ◌&&◌, ◌||◌, Option, none, some, List, [], ◌∷◌, map, length, if◌then◌else◌,
}
use grevir_core.Interrupt.Binding.{
  SelectedPlan, DemandKeys, Problem, no_error, validate, validate_inventory,
}
use grevir_core.Interrupt.Catalog.{EventIdentity}
use grevir_core.Interrupt.Handler.{valid_choice}
use grevir_core.Interrupt.Demand.{Demand, CatalogEvent, demand_data}
use grevir_core.Interrupt.Events.{collect_descriptors, event_catalog}

-- What `Board::Allocate<Spec>` has. Its code is the board's: it is a parameter.
pub record Allocation : Type 0 where
  pub plan : SelectedPlan
  pub problem : Problem
  pub validates : List Demand → SelectedPlan → Bool

-- The assertions of the `HandlerChoice`s that the demand set reads.
unfoldable pub valid_choices : List CatalogEvent → Bool
valid_choices [] = true
valid_choices (e ∷ es) = valid_choice e.declared && valid_choices es

-- `LiveDemandSet<Spec>`, for the events of the catalog.
unfoldable pub live_demand_set : List CatalogEvent → Option (List Demand)
live_demand_set es = if valid_choices es then some (demand_data es) else none

-- The demands as `validate` reads them.
unfoldable pub demand_keys : List Demand → DemandKeys
demand_keys ds = record { keys = map (λ (d : Demand). d.key) ds; count = length ds }

-- The last three assertions of `BindingPlan`, for the catalog's keys and the demands.
unfoldable pub accepted : List EventIdentity → List Demand → Allocation → Bool
accepted keys demands a =
    validate_inventory keys a.problem a.plan
    && a.validates demands a.plan
    && (elim (validate keys (demand_keys demands) a.plan) [ no_error ↦ true | _ ↦ false ])

-- `BindingPlan<Spec>`, from the catalog's keys and the demand set, if they have no failed assertion: its
-- demands and its selected plan.
unfoldable pub checked_plan :
    Option (List EventIdentity)
    → Option (List Demand)
    → Allocation
    → Option (List Demand × SelectedPlan)
checked_plan none demands a = none
checked_plan (some keys) none a = none
checked_plan (some keys) (some demands) a =
    if accepted keys demands a then some (demands, a.plan) else none

-- `BindingPlan<Spec>`, for the descriptors of the closure.
unfoldable pub binding_plan :
    (List CatalogEvent → List CatalogEvent → List CatalogEvent)
    → List (List (Option (List CatalogEvent)))
    → Allocation
    → Option (List Demand × SelectedPlan)
binding_plan catr descriptors a =
    checked_plan (event_catalog catr descriptors)
      (live_demand_set (collect_descriptors catr descriptors)) a
