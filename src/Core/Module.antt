-- ===== src/Core/Module.antt =====
-- src/grevir/core/module.hpp: the runner, parameters, the dependencies of a module, and the closure of
-- the modules of an application. A module is a number.
pub mod Closure
use grevir_core.Common.{ℕ, zero, suc, Option, none, some, List, [], ◌∷◌, map}
use grevir_core.Core.TypeLists.{TypeLists}

-- `Runner<T...>`: `call` is the member function of each class.
module _ {T S : Type 0} where
  -- `runParamsSetup`, `runParamsLoop`, `runSetup`, `runLoop`
  unfoldable pub run_each : (T → S → S) → List T → S → S
  run_each call [] s = s
  run_each call (t ∷ ts) s = call t (run_each call ts s)

  unfoldable pub run_setup_interleaved : (T → S → S) → (T → S → S) → List T → S → S
  run_setup_interleaved params_setup setup [] s = s
  run_setup_interleaved params_setup setup (t ∷ ts) s =
      setup t (params_setup t (run_setup_interleaved params_setup setup ts s))

-- `ParamByIndex<index, P...>::param`; out of range the compiler reports
-- `GREVIR_CORE_PARAMETER_INDEX_OUT_OF_RANGE`.
unfoldable pub param_by_index : {T : Type 0} → ℕ → List T → Option T
param_by_index index [] = none
param_by_index zero (w ∷ p) = some w
param_by_index (suc index) (w ∷ p) = param_by_index index p

-- A parameter: its callbacks, and its `Deps` if it has that member.
pub record Parameter (S : Type 0) : Type 0 where
  pub setup : S → S
  pub loop : S → S
  pub deps : Option (List ℕ)

-- A module: the arguments of `ModuleBase`, and its own `runSetup` and `runLoop`.
pub record ModuleCode (S : Type 0) : Type 0 where
  pub params : List (Parameter S)
  pub implicit_deps : List ℕ
  pub setup : S → S
  pub loop : S → S

module _ (lib : TypeLists ℕ) where
  -- `DepsOf<V>`
  unfoldable pub deps_of : Option (List ℕ) → List ℕ
  deps_of none = []
  deps_of (some ds) = ds

  -- `DepsFromParams<Params>`
  unfoldable pub deps_from_params : {S : Type 0} → List (Parameter S) → List ℕ
  deps_from_params [] = []
  deps_from_params (t ∷ ts) = lib.catr (deps_from_params ts) (deps_of t.deps)

  -- `ModuleBase::Deps`
  unfoldable pub module_deps : {S : Type 0} → ModuleCode S → List ℕ
  module_deps m = lib.cat m.implicit_deps (deps_from_params m.params)

-- `ModuleBase::paramsSetup` and `paramsLoop`
unfoldable pub params_setup : {S : Type 0} → ModuleCode S → S → S
params_setup m = run_each (λ p. p.setup) m.params

unfoldable pub params_loop : {S : Type 0} → ModuleCode S → S → S
params_loop m = run_each (λ p. p.loop) m.params

module _ (lib : TypeLists ℕ) (deps : ℕ → List ℕ) where
  -- `ModuleClosureVa<Contained, w_Ms...>`; `none` if it takes more steps than the fuel.
  unfoldable pub closure : ℕ → List ℕ → List ℕ → Option (List ℕ)
  closure fuel contained [] = some contained
  closure zero contained (t ∷ ms) = none
  closure (suc fuel) contained (t ∷ ms) =
      let new_contained = lib.cat contained (t ∷ []) in
      let catenated_deps = lib.cat (deps t) ms in
      closure fuel new_contained (lib.remove_all catenated_deps new_contained)

  -- `ModuleClosure<w_Ms...>` of application.hpp
  unfoldable pub module_closure : ℕ → List ℕ → Option (List ℕ)
  module_closure fuel modules = closure fuel [] modules
