-- ===== src/Lib.antt =====
-- A verification library for grevir-core, a C++ library of event queues, interrupt bindings and
-- module composition for microcontrollers (headers under src/grevir).
--
-- The parts, the files that model them, and how the model corresponds to the code:
--
-- * The main-loop event queue, src/grevir/event/queue.hpp: `Event.Queue` has the static members of
--   `detail::MainLoopQueue<Spec>` as a record and each block under a lock guard as one function
--   (`prepare`, `stop`, `post` for `post_with_guard`, `enter`, `take_record` and `leave` for the three
--   locked blocks of `dispatch`, `clear_overrun`). `Event.Dispatch` composes them: `dispatch` takes the
--   calls that handlers, interrupts and other tasks make in each gap between two locked blocks as a
--   function from the gap's number, so a statement for every such function is one for every
--   interleaving. `session` is a sequence of calls from outside. `Event.Mailbox` is the abstract
--   queue, a list of waiting events; `Event.Queue.Inv` says when a queue represents a mailbox, and
--   `Event.Queue.Refine` and `Event.Dispatch.Refine` prove each block and each call against it.
--   An event type is a number; a pointer to a handler or to a pending flag is the event's number. The
--   static assertions of `post_with_guard` (the event is of the application, its route is deferred)
--   are the compiler's, and no state of the model. The board's context policy is a parameter; the
--   lock guards make the blocks atomic, which is what the model takes of them. The width of
--   `index_type` is the base library's choice: `IsSpec` states that it holds the capacity.
-- * Routes, src/grevir/event/route.hpp: `Event.Route`.
-- * The allocation search, src/grevir/core/allocation/search.hpp: `Core.Search`. The recursion of the
--   lambda is on the units left, the loops on the rounds left, so no fuel is needed; `visited` wraps
--   at 32 bits as in the code. `Core.Search.Fits` says what is searched for, `Core.Search.Sound` and
--   `Core.Search.Budget` prove the recursion, `Core.Search.Decides` what a caller relies on.
--
-- * Resource claims, src/grevir/core/resource_claims.hpp and resource_checks.hpp: `Core.Claims` has
--   `has_conflict` by the code's specialisations, with a claim's template arguments as constructor
--   arguments and the board's canonical pins as a parameter, and `SelfParamsConflictTest`. `Core.Checks`
--   has the checks of parameters, modules and an application; the base library's scanners are the
--   parameter `Scans` with laws. `Core.Pairs` has the pairs of a list that the descriptions speak of.
-- * Joined claims, src/grevir/core/allocated_application.hpp: `Core.Joined` has the claims that modules
--   hand to the allocation, with the base library's `cat_type_arg` as a parameter. `Core.Allocated` has
--   requested and existing modules, their binding, and the assembly; the backend is a parameter. The
--   fuel counts the steps of each closure, one for each module, and bounds the nested visits.
-- * Resource graphs, src/grevir/core/resource_graph.hpp: `Core.Graph`; the fuel bounds how deep a resource
--   depends on others, and the parameter `Tuples` has the base library's operations on tuples.
-- * The lifecycle order, src/grevir/core/lifecycle_order.hpp: `Core.Lifecycle`; a module is a number and
--   its dependencies a list. The operations of the base library's type lists are the parameter
--   `Core.TypeLists` with the laws that the callers rely on. A failed assertion is `dependency_cycle`;
--   the fuel bounds how deep visits nest, and as many as there are modules is enough, since each nested
--   visit makes one more module active.
-- * Modules, src/grevir/core/module.hpp: `Core.Module` has the runner, parameters, a module's
--   dependencies and the closure; the fuel counts its steps, one for each module.
--   `Core.Instance` has `ModuleInstanceBase` with the instances of singleton.hpp; a callback gets the
--   module whose instance it is called on, and may change all of them.
-- * Applications, src/grevir/core/application.hpp: `Core.Application` composes the closure, the order
--   and the runner; a callback is a function on a state.
-- * Event identities, src/grevir/interrupt/catalog.hpp: `Interrupt.Catalog`, with text as bytes;
--   `Interrupt.Events` has `EventCatalog` of the descriptors' events, with their sorted keys.
-- * Binding plans, src/grevir/interrupt/binding.hpp: `Interrupt.Binding` has `validate` and
--   `validate_inventory`, loop by loop; an array with a count is a list and the prefix of that length.
--   `Interrupt.Binding.Valid` and `Interrupt.Binding.Inventory` describe what they accept.
--   `Interrupt.Deferred` has `DeferredContextPlan`, from what the board has; `Interrupt.Plan` has
--   `BindingPlan`, which composes the catalog, the demand set and both validations, with the board's
--   allocation as a parameter.
-- * Names and capacities, src/grevir/event/context_policy.hpp and queue_capacity.hpp: `Event.Policy`. The
--   fuel of the digits' loop is the value itself, which is enough as each round divides it by 10.
-- * Handlers, src/grevir/interrupt/handler.hpp: `Interrupt.Handler`, from what the program declares for
--   an event and what the generated header recorded.
-- * Demands, src/grevir/interrupt/demand.hpp: `Interrupt.Demand`; the parallel arrays are one list of
--   rows. `Interrupt.Sort` is the exchange sort that it shares with the catalog, on the number of rows,
--   which bounds its rounds.
-- * The probe record, src/grevir/interrupt/probe_record.hpp: `Interrupt.Probe` as the list of bytes;
--   the width of `unsigned long` is a parameter.
-- * The host tool's reader, tools/grevir_irqgen/protocol.py: `Interrupt.Decode` reads a record,
--   `Interrupt.Host` makes the plan of it and validates the plan. Which bytes are UTF-8 is a parameter,
--   and so is the fingerprint, which the Python library's JSON and SHA-256 make.
-- * The start sequence, src/grevir/interrupt/start.hpp and single_thread_start_policy.hpp:
--   `Interrupt.Start`. The board's hooks are functions on a world that only they know; the modules'
--   setup may call the queue. `execute` is the policy; `BodyRun` is a body that
--   may call `execute` again, with any body, and `run_body` runs it.
--
-- `Common` passes on the library's names and has lists under native numbers and Boolean tests. The
-- modules named `Tests` run the code on concrete inputs.
--
-- Not modelled: the rest of the Python tool, and declarations without behaviour.
pub mod Common
pub mod Event
pub mod Core
pub mod Interrupt
