-- ===== src/Core/Allocated.antt =====
-- src/grevir/core/allocated_application.hpp: modules that ask a backend for resources, and the application
-- that is made of them with what the backend allocates. A module is a number; so is its descriptor, and
-- `ExistingModule<M>` has the number of `M`. A failed static assertion is `none`.
pub mod Asked
pub mod Laws
mod Tests
use grevir_core.Common.{
  ℕ, Bool, true, false, not, ◌&&◌, Option, none, some, List, [], ◌∷◌, map, if◌then◌else◌,
}
use grevir_core.Interrupt.Catalog.{Text, text_eq}
use grevir_core.Core.TypeLists.{TypeLists, Cats}
use grevir_core.Core.Claims.{Claim}
use grevir_core.Core.Checks.{Scans, application_conflict}
use grevir_core.Core.Joined.{join, module_claims}
use grevir_core.Core.Lifecycle.{Order, order, dependency_cycle, out_of_fuel, lifecycle_order}
use grevir_core.Core.Module.{run_each, run_setup_interleaved, module_closure}

-- A request has a name; what else it says is the backend's.
pub record NamedRequest : Type 0 where
  pub name : Text
  pub wanted : ℕ

-- `Backend::Allocate<Requests, Claims>`: `plan.ok()`, `OwnerClaims<Name>` and `setup_owner<Name>`.
pub record Allocate (S : Type 0) : Type 0 where
  pub ok : Bool
  pub owner_claims : Text → List Claim
  pub setup_owner : Text → S → S

-- A module type: `Deps`, the claims of each of its `Params`, and its four functions.
pub record BoundModule (S : Type 0) : Type 0 where
  pub deps : List ℕ
  pub claims : List (List Claim)
  pub params_setup : S → S
  pub params_loop : S → S
  pub setup : S → S
  pub loop : S → S

-- `RequestedModule<Requests, Module, Claims, Dependencies...>`; `impl` is
-- `Module<Allocation::View<Requests>>`.
pub record RequestedModule (S : Type 0) : Type 0 where
  pub requests : List NamedRequest
  pub impl : Allocate S → BoundModule S
  pub claims : List Claim
  pub dependencies : List ℕ

-- What an accepted application has: the allocation, the modules of its closure, and its runner.
pub record Assembled (S : Type 0) : Type 0 where
  pub allocation : Allocate S
  pub modules : List ℕ
  pub runner : List ℕ

unfoldable pub with_runner : {S : Type 0} → Allocate S → List ℕ → Order → Option (Assembled S)
with_runner a modules (order runner) =
    some (record { allocation = a; modules = modules; runner = runner })
with_runner a modules dependency_cycle = none
with_runner a modules out_of_fuel = none

-- The assertion of `SelectedTimerParameter`: the requests are of one owner.
unfoldable pub same_name : Text → List NamedRequest → Bool
same_name name [] = true
same_name name (r ∷ rest) = text_eq name r.name && same_name name rest

unfoldable pub one_owner : List NamedRequest → Bool
one_owner [] = true
one_owner (first ∷ rest) = same_name first.name rest

-- `SelectedTimerParameter::Claims` and `runSetup`
unfoldable pub timer_claims : {S : Type 0} → Allocate S → List NamedRequest → List Claim
timer_claims a [] = []
timer_claims a (first ∷ rest) = a.owner_claims first.name

unfoldable pub timer_setup : {S : Type 0} → Allocate S → List NamedRequest → S → S
timer_setup a [] s = s
timer_setup a (first ∷ rest) s = a.setup_owner first.name s

module _ {S : Type 0} (cats : Cats) where
  -- `RequestedModule::Bind<Allocation>`
  unfoldable pub bind : Allocate S → RequestedModule S → BoundModule S
  bind a r =
      let impl = r.impl a in
      record {
        deps = cats.cat impl.deps r.dependencies;
        claims = cats.cat impl.claims (r.claims ∷ timer_claims a r.requests ∷ []);
        params_setup = λ s. impl.params_setup (timer_setup a r.requests s);
        params_loop = impl.params_loop;
        setup = impl.setup;
        loop = impl.loop;
      }

  -- `requested m` is the `RequestedModule` with the number `m`, if it is one; `code m` is the module
  -- that needs no allocation.
  module _ (requested : ℕ → Option (RequestedModule S)) (code : ℕ → BoundModule S) where
    -- `Descriptor::Bind<Allocation>`
    unfoldable pub bound : Allocate S → ℕ → BoundModule S
    bound a m = elim (requested m) [ none ↦ code m | some r ↦ bind a r ]

    -- `Descriptor::Requests` and `Descriptor::Deps`
    unfoldable pub requests_of : ℕ → List NamedRequest
    requests_of d = elim (requested d) [ none ↦ [] | some r ↦ r.requests ]

    unfoldable pub deps_of_descriptor : ℕ → List ℕ
    deps_of_descriptor d = elim (requested d) [ none ↦ [] | some r ↦ r.dependencies ]

    unfoldable pub owners_declared : List ℕ → Bool
    owners_declared [] = true
    owners_declared (d ∷ ds) = one_owner (requests_of d) && owners_declared ds

    -- `Assemble::Requests`
    unfoldable pub joined_requests : List ℕ → List NamedRequest
    joined_requests ds = join cats.cat (map requests_of ds)

    module _ (lib : TypeLists ℕ) (fuel : ℕ) where
      -- `ExistingModule<Module>::Claims`
      unfoldable pub existing_claims : ℕ → Option (List Claim)
      existing_claims m = elim (module_closure lib (λ x. (code x).deps) fuel (m ∷ [])) [
        | none ↦ none
        | some modules ↦ some (module_claims cats.cat (map (λ x. (code x).claims) modules))
      ]

      -- `Descriptor::Claims`
      unfoldable pub claims_of : ℕ → Option (List Claim)
      claims_of d = elim (requested d) [ none ↦ existing_claims d | some r ↦ some (r.claims) ]

      -- `Assemble::Claims`
      unfoldable pub joined_claims : List ℕ → Option (List Claim)
      joined_claims [] = some []
      joined_claims (d ∷ ds) = elim (claims_of d) [
        | none ↦ none
        | some first ↦ elim (joined_claims ds) [
          | none ↦ none
          | some rest ↦ some (cats.cat first rest)
        ]
      ]

      -- The backend: `Backend::Allocate`. The scanners and the canonical pins are those of the checks.
      module _ (backend : List NamedRequest → List Claim → Allocate S) (scans : Scans)
          (canonical : ℕ → ℕ) where
        -- `Assemble::Modules`, which is `Application<Descriptors::Bind<Allocation>...>`, and its
        -- assertions, for the modules of its closure.
        unfoldable pub application_of : Allocate S → Option (List ℕ) → Option (Assembled S)
        application_of a none = none
        application_of a (some modules) =
            if application_conflict scans canonical (map (λ m. (bound a m).claims) modules)
            then none
            else with_runner a modules (lifecycle_order lib (λ m. (bound a m).deps) fuel modules)

        -- `Assemble<Backend, Descriptors...>`, from its claims.
        unfoldable pub assemble : List ℕ → Option (List Claim) → Option (Assembled S)
        assemble ds none = none
        assemble ds (some claims) =
            let a = backend (joined_requests ds) claims in
            if owners_declared ds && a.ok
            then application_of a (module_closure lib (λ m. (bound a m).deps) fuel ds)
            else none

        -- `AllocatedApplication<Backend, Descriptors...>`
        unfoldable pub allocated_application : List ℕ → Option (Assembled S)
        allocated_application descriptors =
            elim (module_closure lib deps_of_descriptor fuel descriptors) [
              | none ↦ none
              | some ds ↦ assemble ds (joined_claims ds)
            ]

    -- `Assemble::runSetup` and `runLoop`
    unfoldable pub allocated_setup : Assembled S → S → S
    allocated_setup r s =
        run_setup_interleaved (λ m. (bound r.allocation m).params_setup)
          (λ m. (bound r.allocation m).setup) r.runner s

    unfoldable pub allocated_loop : Assembled S → S → S
    allocated_loop r s =
        run_each (λ m. (bound r.allocation m).loop) r.runner
          (run_each (λ m. (bound r.allocation m).params_loop) r.runner s)
