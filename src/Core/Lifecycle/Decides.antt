-- ===== src/Core/Lifecycle/Decides.antt =====
-- Modules get an order exactly when their dependencies have no cycle, and otherwise a cycle is reported.
use grevir_core.Common.{
  ℕ, suc, ◌≤◌, ◌<◌, List, [], ◌∷◌, ◌≡◌, ◌≢◌, ◌↔◌, inl, inr, refl, subst, sym, arith, All-at, Among,
  length, ◌==◌, ==_iff, if◌then◌else◌, Bool-cases,
}
use grevir_core.Core.TypeLists.{TypeLists}
use grevir_core.Core.Lifecycle.{Order, order, dependency_cycle, out_of_fuel, lifecycle_order}
use grevir_core.Core.Lifecycle.Ordered.{
  Reach, root, dep, IsOrdered, Extends, lifecycle_order-Extends,
}
use grevir_core.Core.Lifecycle.Acyclic.{IsUncyclic, lifecycle_order-IsUncyclic}
use grevir_core.Core.Lifecycle.Fuel.{Ends, Below, lifecycle_order-Ends}

-- Of the modules reached, each is ranked above its dependencies: there is no cycle among them.
abbrev pub Ranks : (ℕ → List ℕ) → List ℕ → (ℕ → ℕ) → Type 0
Ranks deps modules rank = (m d : ℕ) → Reach deps modules m → Among d (deps m) → rank d < rank m

-- A module's place in an order, counted from its end.
abbrev place : List ℕ → ℕ → ℕ
place [] m = 0
place (x ∷ xs) m = if x == m then suc (length xs) else place xs m

place-le : (xs : List ℕ) (m : ℕ) → place xs m ≤ length xs
place-le [] m = omega arith
place-le (x ∷ xs) m = ground (arith, place-le xs m)

place_skip :
    (x : ℕ) (xs : List ℕ) (m : ℕ) → ¬ Among x xs → Among m xs → place (x ∷ xs) m ≡ place xs m
place_skip x xs m n a = elim (Bool-cases (x == m)) [
  | inl e ↦ absurd (n (subst (λ y. Among y xs) (sym ((==_iff x m).0 e)) a))
  | inr e ↦ rw e
]

module _ (deps : ℕ → List ℕ) where
  place-lt :
      (xs : List ℕ) (m d : ℕ)
      → IsOrdered deps xs
      → Among m xs
      → Among d (deps m)
      → Among d xs × (place xs d < place xs m)
  place-lt [] m d o a b = absurd a
  place-lt (x ∷ xs) m d (n, behind, o) (inl e) b =
      let there =
        All-at (λ d. Among d xs) (deps x) behind d (subst (λ y. Among d (deps y)) (sym e) b) in
      (inr there, ground (arith, place_skip x xs d n there, place-le xs d, ==_iff x m, e))
  place-lt (x ∷ xs) m d (n, behind, o) (inr a) b =
      let later = place-lt xs m d o a b in
      (inr later.0, rw (place_skip x xs m n a, place_skip x xs d n later.0) later.1)

  -- All that is reached has a place.
  pub covered :
      (modules out : List ℕ)
      → Extends deps [] modules [] out
      → (m : ℕ) → Reach deps modules m
      → Among m out
  covered modules out x m (root _ a) = x.has m a
  covered modules out x m (dep k _ r a) =
      (place-lt out k m x.ordered (covered modules out x k r) a).0

  module _ (lib : TypeLists ℕ) (n : ℕ) where
    pub told : (o : Order) → Ends o → IsUncyclic o → (out : List ℕ) × (o ≡ order out)
    told (order out) e u = (out, refl)
    told dependency_cycle e u = absurd u
    told out_of_fuel e u = absurd e

    ends_apart : (o : Order) → Ends o → o ≢ out_of_fuel
    ends_apart (order out) e p = cc
    ends_apart dependency_cycle e p = cc
    ends_apart out_of_fuel e p = absurd e

    -- For modules numbered below `n`, whose dependencies are too, visits nested `n` deep are enough, and
    -- there is an order exactly if the modules reached can be ranked above their dependencies, that is,
    -- have no cycle.
    pub lifecycle_order_decides :
        (modules : List ℕ)
        → Below n modules
        → ((m : ℕ) → Below n (deps m))
        → (lifecycle_order lib deps n modules ≢ out_of_fuel)
          × (((out : List ℕ) × (lifecycle_order lib deps n modules ≡ order out))
              ↔ ((rank : ℕ → ℕ) × Ranks deps modules rank))
    lifecycle_order_decides modules b bs =
        let ends = lifecycle_order-Ends lib deps n bs modules b in
        (
          ends_apart (lifecycle_order lib deps n modules) ends,
          (
            λ (out, e).
                let x = lifecycle_order-Extends deps lib n modules out e in
                (
                  place out,
                  λ m d r a. (place-lt out m d x.ordered (covered modules out x m r) a).1,
                ),
            λ (rank, h). told (lifecycle_order lib deps n modules) ends (
                lifecycle_order-IsUncyclic lib deps (Reach deps modules) rank
                  (λ m d r a. (dep m d r a, h m d r a)) n modules (λ m a. root m a)),
          ),
        )
