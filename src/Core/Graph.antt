-- ===== src/Core/Graph.antt =====
-- src/grevir/core/resource_graph.hpp: the root resources that a resource depends on, and the resource of
-- a type on a root. A resource is a number, and so is a `ResourceType`.
pub mod Roots
mod Tests
use grevir_core.Common.{
  ℕ, zero, suc, Bool, true, false, ◌&&◌, Option, none, some, List, [], ◌∷◌, ◌++◌, ◌≡◌, ◌↔◌, Among,
  ◌==◌, if◌then◌else◌,
}

-- `Dependency<T, w_resource_type, std::tuple<Ps...>>`
pub record Dependency : Type 0 where
  pub resource : ℕ
  pub resource_type : ℕ
  pub dependencies : List ℕ

-- The operations of the base library on tuples, whose code is in another repository.
pub record Tuples : Type 0 where
  -- `setl::tuple_concat<xs, ys>`
  pub tuple_concat : List ℕ → List ℕ → List ℕ
  -- `setl::tuple_contained_in<a, xs>`
  pub contained_in : ℕ → List ℕ → Bool
  pub tuple_concat_lem : (xs ys : List ℕ) → tuple_concat xs ys ≡ xs ++ ys
  pub contained_in_iff : (a : ℕ) (xs : List ℕ) → (contained_in a xs ≡ true) ↔ Among a xs

abbrev join : (List ℕ → List ℕ → List ℕ) → Option (List ℕ) → Option (List ℕ) → Option (List ℕ)
join concat none ys = none
join concat (some xs) none = none
join concat (some xs) (some ys) = some (concat xs ys)

module _ (lib : Tuples) (deps : ℕ → List ℕ) where
  -- `RootDependencyFinder<T...>`, with `RootDependencyOf` as `root_of`; `none` if the compiler would
  -- need more nested instances than the fuel.
  unfoldable pub find_roots : (ℕ → Option (List ℕ)) → List ℕ → Option (List ℕ)
  find_roots root_of [] = some []
  find_roots root_of (t ∷ ts) = join lib.tuple_concat (root_of t) (find_roots root_of ts)

  -- The specialisations of `RootDependencyOfHelper<T, T::dependencies>` for no dependency and for `T`
  -- itself.
  unfoldable pub is_root : ℕ → List ℕ → Bool
  is_root t [] = true
  is_root t (d ∷ []) = d == t
  is_root t (d ∷ e ∷ ds) = false

  unfoldable pub root_of : ℕ → ℕ → Option (List ℕ)
  root_of zero t = if is_root t (deps t) then some (t ∷ []) else none
  root_of (suc fuel) t =
      let below = find_roots (root_of fuel) (deps t) in
      if is_root t (deps t) then some (t ∷ []) else below

  -- `RootDependencies<T>`
  unfoldable pub root_dependencies : ℕ → ℕ → Option (List ℕ)
  root_dependencies fuel t = find_roots (root_of fuel) (deps t)

  -- `ResourceFinder<w_Resources...>::Resource<T, w_resource_type>`; `none` is `void`.
  unfoldable pub find_resource : ℕ → ℕ → List Dependency → Option ℕ
  find_resource t wanted [] = none
  find_resource t wanted (r ∷ rs) =
      if r.resource_type == wanted && lib.contained_in t r.dependencies
      then some r.resource
      else find_resource t wanted rs
