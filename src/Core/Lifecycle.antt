-- ===== src/Core/Lifecycle.antt =====
-- src/grevir/core/lifecycle_order.hpp: the order in which modules run. A module is a number, and
-- `Module::Deps` a list of them.
pub mod Ordered
pub mod Acyclic
pub mod Fuel
pub mod Decides
use grevir_core.Common.{ℕ, zero, suc, Bool, true, false, List, [], ◌∷◌, if◌then◌else◌}
use grevir_core.Core.TypeLists.{TypeLists}

-- The compiler reports `GREVIR_CORE_DEPENDENCY_CYCLE`, or would need more nested visits than the fuel.
pub data Order : Type 0 where
  order : List ℕ → Order
  dependency_cycle : Order
  out_of_fuel : Order

infixl 5 ◌>>=◌
abbrev pub ◌>>=◌ : Order → (List ℕ → Order) → Order
order xs >>= f = f xs
dependency_cycle >>= f = dependency_cycle
out_of_fuel >>= f = out_of_fuel

-- `LifecycleVisitList<Done, Active, Modules>`, with `LifecycleVisit` under the same `Active` as `visit`.
unfoldable pub visit_list : (List ℕ → ℕ → Order) → List ℕ → List ℕ → Order
visit_list visit done [] = order done
visit_list visit done (m ∷ rest) = visit_list visit done rest >>= λ tail. visit tail m

module _ (lib : TypeLists ℕ) (deps : ℕ → List ℕ) where
  -- `LifecycleVisit<Done, Active, Module, ...>`: complete, visiting, or neither.
  unfoldable pub visit : ℕ → List ℕ → List ℕ → ℕ → Order
  visit zero active done m =
      if lib.contains done m
      then order done
      else if lib.contains active m
      then dependency_cycle
      else out_of_fuel
  visit (suc fuel) active done m =
      let dependencies = visit_list (visit fuel (lib.cat active (m ∷ []))) done (deps m) in
      let whole = dependencies >>= λ d. order (lib.catr d (m ∷ [])) in
      if lib.contains done m
      then order done
      else if lib.contains active m
      then dependency_cycle
      else whole

  -- `LifecycleOrder<Modules>`
  unfoldable pub lifecycle_order : ℕ → List ℕ → Order
  lifecycle_order fuel modules = visit_list (visit fuel []) [] modules
