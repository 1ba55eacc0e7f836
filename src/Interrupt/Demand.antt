-- ===== src/Interrupt/Demand.antt =====
-- src/grevir/interrupt/demand.hpp: the demanded events of an application. A `DemandSummary` is the list
-- of the rows of its parallel arrays, up to its count.
pub mod Laws
use grevir_core.Common.{
  ℕ, zero, suc, Bool, true, false, not, ◌&&◌, ◌||◌, List, [], ◌∷◌, length, ◌==◌, if◌then◌else◌,
}
use grevir_core.Interrupt.Catalog.{EventIdentity, identity_eq, identity_lt, text_eq}
use grevir_core.Interrupt.Sort.{sort}
use grevir_core.Interrupt.Handler.{Declared, HandlerNames, names}

pub record Demand : Type 0 where
  pub key : EventIdentity
  pub named : HandlerNames

-- An event of the catalog: its key, and what the program declares for it.
pub record CatalogEvent : Type 0 where
  pub key : EventIdentity
  pub declared : Declared

unfoldable pub present : CatalogEvent → Bool
present e = e.declared.raw || e.declared.event

-- The loop that keeps the events with a handler.
unfoldable pub collect : List CatalogEvent → List Demand
collect [] = []
collect (e ∷ es) =
    if present e
    then record { key = e.key; named = names (e.declared) } ∷ collect es
    else collect es

-- `result.keys[j] < result.keys[i]`
abbrev pub key_lt : Demand → Demand → Bool
key_lt a b = identity_lt a.key b.key

-- `DemandData<Events...>::value`
unfoldable pub demand_data : List CatalogEvent → List Demand
demand_data es = sort key_lt (collect es)

-- One row of the comparison.
unfoldable pub same_row : Demand → Demand → Bool
same_row a b =
    identity_eq a.key b.key
    && text_eq a.named.handler b.named.handler
    && text_eq a.named.context b.named.context
    && text_eq a.named.delivery b.named.delivery

-- The loop of `same_demands`, for lists of one length.
unfoldable pub same_rows : List Demand → List Demand → Bool
same_rows [] bs = true
same_rows (a ∷ as_) [] = false
same_rows (a ∷ as_) (b ∷ bs) = if same_row a b then same_rows as_ bs else false

unfoldable pub same_demands : List Demand → List Demand → Bool
same_demands live recorded =
    if not (length live == length recorded) then false else same_rows live recorded
