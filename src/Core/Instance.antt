-- ===== src/Core/Instance.antt =====
-- src/grevir/core/module.hpp, `ModuleInstanceBase`, and singleton.hpp: modules whose callbacks run on one
-- static instance. `Parameters` gives the members of a parameter list.
pub mod Once
mod Tests
use grevir_core.Common.{ℕ, List}
use grevir_core.Core.Module.{Parameter, ModuleCode}

-- The static instances, `Singleton<M>::instance` for the module `M`, and the rest of the program.
pub record Statics (I W : Type 0) : Type 0 where
  pub instance_of : ℕ → I
  pub world : W

-- What a module derived from `ModuleInstanceBase` has: its parameters, its dependencies, and its
-- `instanceSetup` and `instanceLoop`, which get the module whose instance they are called on. All of
-- these callbacks may reach every instance.
pub record InstanceModule (I W : Type 0) : Type 0 where
  pub params : List (Parameter (Statics I W))
  pub implicit_deps : List ℕ
  pub instance_setup : ℕ → Statics I W → Statics I W
  pub instance_loop : ℕ → Statics I W → Statics I W

-- `ModuleInstanceBase<w_Module, w_Params, w_Deps>`
unfoldable pub module_instance : {I W : Type 0} → ℕ → InstanceModule I W → ModuleCode (Statics I W)
module_instance m b = record {
  params = b.params;
  implicit_deps = b.implicit_deps;
  setup = b.instance_setup m;
  loop = b.instance_loop m;
}
