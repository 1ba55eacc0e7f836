-- ===== src/Event/Route.antt =====
-- src/grevir/event/route.hpp: in which context an event is handled, and how it is delivered.
use grevir_core.Common.{Bool, true, false}

-- The tag types `MainLoop` and `IsrLevel`.
pub data Context : Type 0 where
  main_loop isr_level : Context

-- The tag types `Elide`, `Stream` and `Direct`.
pub data Delivery : Type 0 where
  elide stream direct : Delivery

-- `RouteFor<Event>`.
pub record Route : Type 0 where
  pub context : Context
  pub delivery : Delivery

-- The primary template of `RouteFor`.
abbrev pub default_route : Route
default_route = record { context = main_loop; delivery = elide }

-- `std::is_same_v<typename Route::Delivery, Elide>`.
abbrev pub is_elide : Delivery → Bool
is_elide elide = true
is_elide _ = false
