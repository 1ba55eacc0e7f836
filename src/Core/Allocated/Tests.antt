-- ===== src/Core/Allocated/Tests.antt =====
-- A module that asks for a timer and depends on an existing module. A callback notes its name.
use grevir_core.Common.{
  ℕ, zero, suc, ◌+◌, true, Option, none, some, List, [], ◌∷◌, ◌≡◌, refl, inl, inr, arith,
}
use grevir_core.Core.Claims.{
  gpio, timer, Claim, whole, has_conflict, resource_conflict, self_conflict, self_conflict_of,
}
use grevir_core.Core.Checks.{
  has_resource, param_param, param_params, params_params, self_params_of, self_params, self_modules,
  application_conflict,
}
use grevir_core.Core.Samples.{lists, scans, cats}
use grevir_core.Core.Joined.{join, parameter_claims, module_claims}
use grevir_core.Core.Lifecycle.{visit_list, visit, lifecycle_order}
use grevir_core.Core.Lifecycle.Fuel.{Below}
use grevir_core.Core.Module.{run_setup_interleaved, closure, module_closure}
use grevir_core.Core.Module.Closure.{IsClosure}
use grevir_core.Core.Allocated.{
  NamedRequest, Allocate, BoundModule, RequestedModule, Assembled, same_name, one_owner,
  timer_claims, timer_setup, bind, bound, requests_of, deps_of_descriptor, owners_declared,
  existing_claims, claims_of, joined_claims, joined_requests, with_runner, application_of, assemble,
  allocated_application, allocated_setup,
}
use grevir_core.Core.Allocated.Laws.{bound_deps, IsAllocated, allocated_application-IsAllocated}

abbrev noting : ℕ → List ℕ → List Claim → BoundModule (List ℕ)
noting n ds cs = record {
  deps = ds;
  claims = cs ∷ [];
  params_setup = λ s. (10 + n) ∷ s;
  params_loop = λ s. s;
  setup = λ s. n ∷ s;
  loop = λ s. n ∷ s;
}

abbrev with_timer : RequestedModule (List ℕ)
with_timer = record {
  requests = record { name = b't' ∷ []; wanted = 0 } ∷ [];
  impl = λ a. noting 0 [] (whole (gpio 2) ∷ []);
  claims = whole (gpio 1) ∷ [];
  dependencies = 1 ∷ [];
}

abbrev descriptor : ℕ → Option (RequestedModule (List ℕ))
descriptor zero = some with_timer
descriptor (suc m) = none

abbrev existing : ℕ → BoundModule (List ℕ)
existing m = noting 1 [] (whole (gpio 3) ∷ [])

-- It gives timer 0, which it sets up as 99.
abbrev backend : List NamedRequest → List Claim → Allocate (List ℕ)
backend requests claims = record {
  ok = true;
  owner_claims = λ n. whole (timer 0) ∷ [];
  setup_owner = λ n s. 99 ∷ s;
}

abbrev result : Assembled (List ℕ)
result = record { allocation = backend [] []; modules = 0 ∷ 1 ∷ []; runner = 0 ∷ 1 ∷ [] }

abbrev same_pin : ℕ → ℕ
same_pin p = p

allocated-result :
    allocated_application cats descriptor existing lists 2 backend scans same_pin (0 ∷ [])
    ≡ some result
unfolding allocated_application assemble application_of with_runner joined_claims joined_requests
    claims_of existing_claims owners_declared requests_of deps_of_descriptor bound bind timer_claims
    one_owner same_name module_closure closure lifecycle_order visit_list visit join module_claims
    parameter_claims application_conflict params_params param_params param_param has_resource
    has_conflict resource_conflict self_modules self_params self_params_of self_conflict
    self_conflict_of
allocated-result = refl

setup-result : allocated_setup cats descriptor existing result [] ≡ 0 ∷ 10 ∷ 99 ∷ 1 ∷ 11 ∷ []
unfolding allocated_setup run_setup_interleaved bound bind timer_setup
setup-result = refl

bound_deps-Below :
    (a : Allocate (List ℕ)) (m : ℕ)
    → Below 2 (bound_deps cats descriptor existing lists 2 scans same_pin a m)
unfolding bound bind
bound_deps-Below a zero x (inl e) = omega arith
bound_deps-Below a zero x (inr q) = absurd q
bound_deps-Below a (suc m) x q = absurd q

existing-Below : (m : ℕ) → Below 2 ((existing m).deps)
existing-Below m x q = absurd q

descriptors-Below : (d : ℕ) → Below 2 (deps_of_descriptor cats descriptor existing d)
unfolding deps_of_descriptor
descriptors-Below zero x (inl e) = omega arith
descriptors-Below zero x (inr q) = absurd q
descriptors-Below (suc d) x q = absurd q

roots-Below : Below 2 (0 ∷ [])
roots-Below x (inl e) = omega arith
roots-Below x (inr q) = absurd q

allocated_application-IsAllocated_example :
    (ds : List ℕ) × IsClosure lists (deps_of_descriptor cats descriptor existing) (0 ∷ []) ds
    × IsAllocated cats descriptor existing lists 2 scans same_pin backend ds result
allocated_application-IsAllocated_example =
    allocated_application-IsAllocated cats descriptor existing lists 2 scans same_pin backend
      (0 ∷ []) result bound_deps-Below existing-Below descriptors-Below roots-Below allocated-result
