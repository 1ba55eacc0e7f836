-- ===== src/Interrupt/Deferred.antt =====
-- src/grevir/interrupt/binding.hpp, `DeferredContextPlan`: the queue of an application whose events are
-- handled in the main loop. A failed static assertion is `none`.
pub mod Laws
mod Tests
use grevir_core.Common.{
  ℕ, Bool, true, false, not, ◌&&◌, ◌||◌, Option, none, some, List, [], ◌∷◌, if◌then◌else◌,
}
use grevir_core.Interrupt.Catalog.{Text, text_eq, valid_component}
use grevir_core.Interrupt.Handler.{main_loop_text}
use grevir_core.Interrupt.Demand.{Demand}
use grevir_core.Event.Policy.{policy_identity, selected_queue_capacity}

-- `DeferredContextPlan::selected`
unfoldable pub selected : List Demand → Bool
selected [] = false
selected (d ∷ ds) = text_eq d.named.context main_loop_text || selected ds

-- What the board has: whether the members that the queue needs, whether its capacity is a number, its
-- capacity, and the names of its lock and of its context policy.
pub record QueueBoard : Type 0 where
  pub available : Bool
  pub is_number : Bool
  pub capacity : ℕ
  pub lock : Text
  pub context : Text

-- `DeferredContextPlan::policy` of an application that has a queue.
unfoldable pub policy : QueueBoard → Option Text
policy b =
    if valid_component b.lock && valid_component b.context
    then (elim (policy_identity b.lock b.context) [
      | none ↦ none
      | some p ↦ if valid_component p then some p else none
    ])
    else none

-- `capacity` and `policy`, where every assertion holds.
unfoldable pub deferred_plan : QueueBoard → List Demand → Option (ℕ × Text)
deferred_plan b demands =
    if selected demands && not b.available
    then none
    else elim (selected_queue_capacity (selected demands && b.available) b.is_number b.capacity) [
      | none ↦ none
      | some capacity ↦
          if selected demands && b.available
          then (elim (policy b) [ none ↦ none | some p ↦ some (capacity, p) ])
          else some (capacity, [])
    ]
