-- ===== src/Interrupt/Events.antt =====
-- src/grevir/interrupt/catalog.hpp: the events of an application's descriptors, and their keys. A key is
-- an `EventKey`, and two of them are the same type exactly if their three texts are equal.
pub mod Laws
mod Tests
use grevir_core.Common.{
  Bool, true, false, not, ◌&&◌, Option, none, some, List, [], ◌∷◌, map, if◌then◌else◌,
}
use grevir_core.Interrupt.Catalog.{EventIdentity, identity_eq, identity_lt, valid_component}
use grevir_core.Interrupt.Sort.{sort}
use grevir_core.Interrupt.Demand.{CatalogEvent}

-- `RequestEvents<Request>`; `none` is a request without `InterruptEvents`.
unfoldable pub request_events : Option (List CatalogEvent) → List CatalogEvent
request_events none = []
request_events (some es) = es

-- `catr` is the base library's `xs::catr<ys...>`.
module _ (catr : List CatalogEvent → List CatalogEvent → List CatalogEvent) where
  -- `Concat<Lists...>`
  unfoldable pub concat : List (List CatalogEvent) → List CatalogEvent
  concat [] = []
  concat (first ∷ rest) = catr (concat rest) first

  -- `CollectRequests<Requests...>`, and `DescriptorEvents`
  unfoldable pub collect_requests : List (Option (List CatalogEvent)) → List CatalogEvent
  collect_requests requests = concat (map request_events requests)

  -- `CollectDescriptors<Descriptors...>`
  unfoldable pub collect_descriptors : List (List (Option (List CatalogEvent))) → List CatalogEvent
  collect_descriptors descriptors = concat (map collect_requests descriptors)

-- `Find<Key, Events...>`; `none` is `void`.
unfoldable pub find : EventIdentity → List CatalogEvent → Option CatalogEvent
find k [] = none
find k (e ∷ es) = if identity_eq k e.key then some e else find k es

-- `Unique<Events...>`, whose inner fold is `is_new`.
unfoldable pub is_new : EventIdentity → List CatalogEvent → Bool
is_new k [] = true
is_new k (e ∷ es) = not (identity_eq k e.key) && is_new k es

unfoldable pub unique : List CatalogEvent → Bool
unique [] = true
unique (e ∷ es) = is_new e.key es && unique es

-- `CatalogData<Events...>::keys`
unfoldable pub keys : List CatalogEvent → List EventIdentity
keys es = sort identity_lt (map (λ (e : CatalogEvent). e.key) es)

-- `CatalogData<Events...>::valid`: one round of the loop, and the loop.
unfoldable pub valid_key : EventIdentity → Bool
valid_key k = valid_component k.instance_name && valid_component k.request && valid_component k.kind

unfoldable pub valid_keys : List EventIdentity → Bool
valid_keys [] = true
valid_keys (k ∷ ks) = if valid_key k then valid_keys ks else false

-- `EventCatalog<Spec>::keys`, for the descriptors of the closure; `none` if an assertion fails.
unfoldable pub event_catalog :
    (List CatalogEvent → List CatalogEvent → List CatalogEvent)
    → List (List (Option (List CatalogEvent)))
    → Option (List EventIdentity)
event_catalog catr descriptors =
    let es = collect_descriptors catr descriptors in
    if unique es && valid_keys (keys es) then some (keys es) else none
