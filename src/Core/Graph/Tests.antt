-- ===== src/Core/Graph/Tests.antt =====
-- A graph after tests/native_compile.cpp: a pin that depends on itself, one that depends on nothing, a
-- bus on both, and a device on the bus.
use grevir_core.Common.{
  ℕ, zero, suc, ◌≤◌, ◌<◌, Bool, true, false, ◌||◌, some, List, [], ◌∷◌, ◌++◌, ◌≡◌, ◌↔◌, inr, refl,
  arith, Among, ◌==◌, ==_iff,
}
use grevir_core.Core.Graph.{Tuples, find_roots, is_root, root_of, root_dependencies, find_resource}
use grevir_core.Core.Graph.Roots.{IsRoot, Finds, root_dependencies-Finds}

abbrev holds : ℕ → List ℕ → Bool
holds a [] = false
holds a (x ∷ xs) = x == a || holds a xs

holds_iff : (a : ℕ) (xs : List ℕ) → (holds a xs ≡ true) ↔ Among a xs
holds_iff a [] = ground arith
holds_iff a (x ∷ xs) = ground (arith, ==_iff x a, holds_iff a xs)

abbrev tuples : Tuples
tuples = record {
  tuple_concat = λ xs ys. xs ++ ys;
  contained_in = holds;
  tuple_concat_lem = λ xs ys. refl;
  contained_in_iff = holds_iff;
}

abbrev depends : ℕ → List ℕ
depends zero = 0 ∷ []
depends (suc zero) = []
depends (suc (suc zero)) = 0 ∷ 1 ∷ []
depends (suc (suc (suc k))) = 2 ∷ []

roots_of_device : root_dependencies tuples depends 4 3 ≡ some (0 ∷ 1 ∷ [])
unfolding root_dependencies find_roots root_of is_root
roots_of_device = refl

-- The pin that depends on nothing has no root dependencies, though it is a root of the bus.
roots_of_pin : root_dependencies tuples depends 4 1 ≡ some []
unfolding root_dependencies find_roots
roots_of_pin = refl

pin_of_type :
    find_resource tuples depends 1 5 (
      record { resource = 7; resource_type = 4; dependencies = 1 ∷ [] }
      ∷ record { resource = 8; resource_type = 5; dependencies = 0 ∷ 1 ∷ [] }
      ∷ [])
    ≡ some 8
unfolding find_resource
pin_of_type = refl

depends_ranked : (t d : ℕ) → ¬ IsRoot tuples depends t → Among d (depends t) → d < t
depends_ranked zero d n a = absurd (n (inr refl))
depends_ranked (suc zero) d n a = absurd a
depends_ranked (suc (suc zero)) d n a = ground arith
depends_ranked (suc (suc (suc k))) d n a = ground arith

dependency_of_device : (d : ℕ) → Among d (depends 3) → d ≤ 2
dependency_of_device d a = ground arith

root_dependencies-Finds_example :
    Finds tuples depends (depends 3) (root_dependencies tuples depends 2 3)
root_dependencies-Finds_example =
    root_dependencies-Finds tuples depends (λ t. t) depends_ranked 2 3 dependency_of_device
