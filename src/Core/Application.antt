-- ===== src/Core/Application.antt =====
-- src/grevir/core/application.hpp: an application runs the modules of its closure in lifecycle order.
pub mod Run
mod Tests
use grevir_core.Common.{ℕ, Option, none, some, List, if◌then◌else◌}
use grevir_core.Core.TypeLists.{TypeLists}
use grevir_core.Core.Lifecycle.{Order, order, dependency_cycle, out_of_fuel, lifecycle_order}
use grevir_core.Core.Module.{
  ModuleCode, module_deps, module_closure, run_each, params_setup, params_loop,
}

module _ {S : Type 0} (lib : TypeLists ℕ) (code : ℕ → ModuleCode S) where
  abbrev pub deps : ℕ → List ℕ
  deps m = module_deps lib (code m)

  -- `Application<Modules...>::ModuleRunner`: the modules of the runner.
  unfoldable pub module_runner : ℕ → List ℕ → Order
  module_runner fuel modules = elim (module_closure lib deps fuel modules) [
    | none ↦ out_of_fuel
    | some all_modules ↦ lifecycle_order lib deps fuel all_modules
  ]

  -- `Application::runSetup` and `runLoop`, for the runner's modules.
  unfoldable pub run_setup : List ℕ → S → S
  run_setup runner s =
      run_each (λ m. (code m).setup) runner (run_each (λ m. params_setup (code m)) runner s)

  unfoldable pub run_loop : List ℕ → S → S
  run_loop runner s =
      run_each (λ m. (code m).loop) runner (run_each (λ m. params_loop (code m)) runner s)
