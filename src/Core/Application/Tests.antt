-- ===== src/Core/Application/Tests.antt =====
-- An application of four modules, after tests/runtime/lifecycle_test.cpp: the left one needs the leaf,
-- the right one the middle one, which needs the leaf. A callback notes its name.
use grevir_core.Common.{ℕ, zero, suc, ◌+◌, none, some, List, [], ◌∷◌, ◌≡◌, ◌≢◌, ◌↔◌, refl, arith}
use grevir_core.Core.Samples.{lists}
use grevir_core.Core.Lifecycle.{
  order, dependency_cycle, out_of_fuel, visit_list, visit, lifecycle_order,
}
use grevir_core.Core.Lifecycle.Ordered.{Extends, lifecycle_order-Extends}
use grevir_core.Core.Lifecycle.Fuel.{Below}
use grevir_core.Core.Lifecycle.Decides.{Ranks, lifecycle_order_decides}
use grevir_core.Core.Module.{
  ModuleCode, run_each, run_setup_interleaved, params_setup, params_loop, module_deps,
  deps_from_params, deps_of, closure, module_closure,
}
use grevir_core.Core.Module.Closure.{IsClosure, module_closure-IsClosure}
use grevir_core.Core.Application.{deps, module_runner, run_setup, run_loop}
use grevir_core.Core.Application.Run.{each, IsSequence, runner_follows}

-- Module `m` notes `m`, and its parameter `m + 10`.
abbrev plain : ℕ → List ℕ → ModuleCode (List ℕ)
plain m ds = record {
  params = record { setup = λ s. (10 + m) ∷ s; loop = λ s. s; deps = none } ∷ [];
  implicit_deps = ds;
  setup = λ s. m ∷ s;
  loop = λ s. m ∷ s;
}

-- The leaf is 0, the middle one 1, the left one 2, the right one 3.
abbrev modules : ℕ → ModuleCode (List ℕ)
modules zero = plain 0 []
modules (suc zero) = plain 1 (0 ∷ [])
modules (suc (suc zero)) = plain 2 (0 ∷ [])
modules (suc (suc (suc zero))) = plain 3 (1 ∷ [])
modules (suc (suc (suc (suc k)))) = plain 4 []

abbrev roots : List ℕ
roots = 2 ∷ 3 ∷ 0 ∷ []

runner-modules : module_runner lists modules 4 roots ≡ order (2 ∷ 3 ∷ 1 ∷ 0 ∷ [])
unfolding module_runner module_closure closure lifecycle_order visit_list visit module_deps
    deps_from_params deps_of
runner-modules = refl

setup-modules :
    run_setup lists modules (2 ∷ 3 ∷ 1 ∷ 0 ∷ []) [] ≡ 2 ∷ 3 ∷ 1 ∷ 0 ∷ 12 ∷ 13 ∷ 11 ∷ 10 ∷ []
unfolding run_setup run_each params_setup
setup-modules = refl

-- Two modules that depend on each other.
abbrev circle : ℕ → List ℕ
circle zero = 1 ∷ []
circle (suc m) = 0 ∷ []

lifecycle_order-circle : lifecycle_order lists circle 2 (0 ∷ 1 ∷ []) ≡ dependency_cycle
unfolding lifecycle_order visit_list visit
lifecycle_order-circle = refl

modules-Below : (m : ℕ) → Below 4 (deps lists modules m)
unfolding module_deps deps_from_params deps_of
modules-Below zero x a = absurd a
modules-Below (suc zero) x a = ground arith
modules-Below (suc (suc zero)) x a = ground arith
modules-Below (suc (suc (suc zero))) x a = ground arith
modules-Below (suc (suc (suc (suc k)))) x a = absurd a

roots-Below : Below 4 roots
roots-Below x a = ground arith

modules-Ranks : Ranks (deps lists modules) roots (λ m. m)
unfolding module_deps deps_from_params deps_of
modules-Ranks zero d r a = absurd a
modules-Ranks (suc zero) d r a = ground arith
modules-Ranks (suc (suc zero)) d r a = ground arith
modules-Ranks (suc (suc (suc zero))) d r a = ground arith
modules-Ranks (suc (suc (suc (suc k)))) d r a = absurd a

runner_follows_example :
    (runner : List ℕ) × (sequence : List ℕ) × (module_runner lists modules 4 roots ≡ order runner)
    × IsSequence (deps lists modules) roots sequence
    × ((s : List ℕ)
        → (run_setup lists modules runner s
            ≡ each
                (λ m. (modules m).setup)
                sequence
                (each (λ m. params_setup (modules m)) sequence s))
          × (run_loop lists modules runner s
              ≡ each
                  (λ m. (modules m).loop)
                  sequence
                  (each (λ m. params_loop (modules m)) sequence s))
          × (run_setup_interleaved (λ m. params_setup (modules m)) (λ m. (modules m).setup) runner s
              ≡ each (λ m s. (modules m).setup (params_setup (modules m) s)) sequence s))
runner_follows_example =
    runner_follows lists modules 4 modules-Below roots (λ m. m) roots-Below modules-Ranks

module_closure-IsClosure_example :
    (c : List ℕ) × (module_closure lists (deps lists modules) 4 roots ≡ some c)
    × IsClosure lists (deps lists modules) roots c
module_closure-IsClosure_example =
    module_closure-IsClosure lists (deps lists modules) roots 4 modules-Below roots-Below

circle-Below : (m : ℕ) → Below 2 (circle m)
circle-Below zero x a = ground arith
circle-Below (suc m) x a = ground arith

two-Below : Below 2 (0 ∷ 1 ∷ [])
two-Below x a = ground arith

lifecycle_order_decides_example :
    (lifecycle_order lists circle 2 (0 ∷ 1 ∷ []) ≢ out_of_fuel)
    × (((out : List ℕ) × (lifecycle_order lists circle 2 (0 ∷ 1 ∷ []) ≡ order out))
        ↔ ((rank : ℕ → ℕ) × Ranks circle (0 ∷ 1 ∷ []) rank))
lifecycle_order_decides_example =
    lifecycle_order_decides circle lists 2 (0 ∷ 1 ∷ []) two-Below circle-Below

chain_ordered : lifecycle_order lists (deps lists modules) 4 (3 ∷ []) ≡ order (3 ∷ 1 ∷ 0 ∷ [])
unfolding lifecycle_order visit_list visit module_deps deps_from_params deps_of
chain_ordered = refl

lifecycle_order-Extends_example : Extends (deps lists modules) [] (3 ∷ []) [] (3 ∷ 1 ∷ 0 ∷ [])
lifecycle_order-Extends_example =
    lifecycle_order-Extends (deps lists modules) lists 4 (3 ∷ []) (3 ∷ 1 ∷ 0 ∷ []) chain_ordered
