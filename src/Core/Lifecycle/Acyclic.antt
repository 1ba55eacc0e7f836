-- ===== src/Core/Lifecycle/Acyclic.antt =====
-- Where every module can be ranked above its dependencies, no cycle is reported.
use grevir_core.Common.{
  ℕ, zero, suc, ◌<◌, true, List, [], ◌∷◌, ◌≡◌, inl, inr, refl, subst, arith, Among, Among-append,
  Bool-cases,
}
use grevir_core.Core.TypeLists.{TypeLists}
use grevir_core.Core.Lifecycle.{
  Order, order, dependency_cycle, out_of_fuel, ◌>>=◌, visit_list, visit, lifecycle_order,
}

abbrev pub IsUncyclic : Order → Type 0
IsUncyclic dependency_cycle = ⊥
IsUncyclic _ = Unit

IsUncyclic-bind :
    (o : Order) (f : List ℕ → Order)
    → IsUncyclic o
    → ((d : List ℕ) → IsUncyclic (f d))
    → IsUncyclic (o >>= f)
IsUncyclic-bind (order d) f s h = h d
IsUncyclic-bind dependency_cycle f s h = absurd s
IsUncyclic-bind out_of_fuel f s h = tt

visit_list-IsUncyclic :
    (v : List ℕ → ℕ → Order) (ms done : List ℕ)
    → ((d : List ℕ) (m : ℕ) → Among m ms → IsUncyclic (v d m))
    → IsUncyclic (visit_list v done ms)
unfolding visit_list
visit_list-IsUncyclic v [] done h = tt
visit_list-IsUncyclic v (m ∷ rest) done h =
    IsUncyclic-bind (visit_list v done rest) (λ tail. v tail m)
      (visit_list-IsUncyclic v rest done (λ d x a. h d x (inr a))) (λ d. h d m (inl refl))

-- `R` holds of the modules to be visited, and of their dependencies, which are ranked below.
module _ (lib : TypeLists ℕ) (deps : ℕ → List ℕ) (R : ℕ → Type 0) (rank : ℕ → ℕ)
    (below : (m d : ℕ) → R m → Among d (deps m) → R d × (rank d < rank m)) where
  not_above :
      (active : List ℕ) (m : ℕ)
      → ((x : ℕ) → Among x active → rank m < rank x)
      → lib.contains active m ≡ true
      → ⊥
  not_above active m above e = absurd (omega (arith, above m ((lib.contains_iff active m).0 e)))

  above-cat :
      (active : List ℕ) (m d : ℕ)
      → ((x : ℕ) → Among x active → rank m < rank x)
      → rank d < rank m
      → (x : ℕ) → Among x (lib.cat active (m ∷ []))
      → rank d < rank x
  above-cat active m d above h x b =
      elim (Among-append x active (m ∷ []) (rw (lib.cat_lem active (m ∷ [])) at b)) [
        | inl c ↦ omega (arith, above x c)
        | inr c ↦ elim c [ inl p ↦ subst (λ z. rank d < rank z) p h | inr q ↦ absurd q ]
      ]

  visit-IsUncyclic :
      (fuel : ℕ) (active done : List ℕ) (m : ℕ)
      → R m
      → ((x : ℕ) → Among x active → rank m < rank x)
      → IsUncyclic (visit lib deps fuel active done m)
  unfolding visit
  visit-IsUncyclic zero active done m r above = elim (Bool-cases (lib.contains done m)) [
    | inl e ↦ rw e tt
    | inr e ↦ elim (Bool-cases (lib.contains active m)) [
      | inl e' ↦ absurd (not_above active m above e')
      | inr e' ↦ rw (e, e') tt
    ]
  ]
  visit-IsUncyclic (suc fuel) active done m r above = elim (Bool-cases (lib.contains done m)) [
    | inl e ↦ rw e tt
    | inr e ↦ elim (Bool-cases (lib.contains active m)) [
      | inl e' ↦ absurd (not_above active m above e')
      | inr e' ↦
          rw (e, e')
            (IsUncyclic-bind _ (λ d. order (lib.catr d (m ∷ [])))
              (visit_list-IsUncyclic _ (deps m) done (λ d x a.
                let lower = below m x r a in
                visit-IsUncyclic fuel (lib.cat active (m ∷ [])) d x lower.0
                  (above-cat active m x above lower.1)))
              (λ d. tt))
    ]
  ]

  pub lifecycle_order-IsUncyclic :
      (fuel : ℕ) (modules : List ℕ)
      → ((m : ℕ) → Among m modules → R m)
      → IsUncyclic (lifecycle_order lib deps fuel modules)
  unfolding lifecycle_order
  lifecycle_order-IsUncyclic fuel modules h =
      visit_list-IsUncyclic (visit lib deps fuel []) modules []
        (λ d m a. visit-IsUncyclic fuel [] d m (h m a) (λ x b. absurd b))
