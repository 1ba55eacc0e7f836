-- ===== src/Core/Lifecycle/Fuel.antt =====
-- With as much fuel as there are modules, the order never runs out of it: every nested visit makes one
-- more module active.
use grevir_core.Common.{
  ℕ, zero, suc, ◌≤◌, ◌<◌, false, List, [], ◌∷◌, ◌++◌, ◌≡◌, inl, inr, refl, arith, Among,
  Among-append_left, Among-append_right, Bool-cases, unmarked, unmarked-le, marked_of_zero,
  unmarked_lt,
}
use grevir_core.Core.TypeLists.{TypeLists}
use grevir_core.Core.Lifecycle.{
  Order, order, dependency_cycle, out_of_fuel, ◌>>=◌, visit_list, visit, lifecycle_order,
}

abbrev pub Ends : Order → Type 0
Ends out_of_fuel = ⊥
Ends _ = Unit

-- The modules are numbers below `n`.
abbrev pub Below : ℕ → List ℕ → Type 0
Below n ms = (m : ℕ) → Among m ms → m < n

Ends-bind : (o : Order) (f : List ℕ → Order) → Ends o → ((d : List ℕ) → Ends (f d)) → Ends (o >>= f)
Ends-bind (order d) f s h = h d
Ends-bind dependency_cycle f s h = tt
Ends-bind out_of_fuel f s h = absurd s

visit_list-Ends :
    (v : List ℕ → ℕ → Order) (ms done : List ℕ)
    → ((d : List ℕ) (m : ℕ) → Among m ms → Ends (v d m))
    → Ends (visit_list v done ms)
unfolding visit_list
visit_list-Ends v [] done h = tt
visit_list-Ends v (m ∷ rest) done h =
    Ends-bind (visit_list v done rest) (λ tail. v tail m)
      (visit_list-Ends v rest done (λ d x a. h d x (inr a))) (λ d. h d m (inl refl))

module _ (lib : TypeLists ℕ) (deps : ℕ → List ℕ) (n : ℕ) (below : (m : ℕ) → Below n (deps m)) where
  pub unmarked-cat :
      (active : List ℕ) (m : ℕ)
      → m < n
      → lib.contains active m ≡ false
      → unmarked (lib.contains (lib.cat active (m ∷ []))) n < unmarked (lib.contains active) n
  unmarked-cat active m h e =
      let more = λ (x : ℕ) (a : Among x (active ++ m ∷ [])).
        (lib.contains_iff (lib.cat active (m ∷ [])) x).1 (rw (lib.cat_lem active (m ∷ [])) a) in
      unmarked_lt (lib.contains active) (lib.contains (lib.cat active (m ∷ []))) n m
        (λ x t. more x (Among-append_left x active (m ∷ []) ((lib.contains_iff active x).0 t))) h e
        (more m (Among-append_right m active (m ∷ []) (inl refl)))

  visit-Ends :
      (fuel : ℕ) (active done : List ℕ) (m : ℕ)
      → m < n
      → unmarked (lib.contains active) n ≤ fuel
      → Ends (visit lib deps fuel active done m)
  unfolding visit
  visit-Ends zero active done m h few = elim (Bool-cases (lib.contains done m)) [
    | inl e ↦ rw e tt
    | inr e ↦ rw (e, marked_of_zero (lib.contains active) n m few h) tt
  ]
  visit-Ends (suc fuel) active done m h few = elim (Bool-cases (lib.contains done m)) [
    | inl e ↦ rw e tt
    | inr e ↦ elim (Bool-cases (lib.contains active m)) [
      | inl e' ↦ rw (e, e') tt
      | inr e' ↦
          rw (e, e')
            (Ends-bind _ (λ d. order (lib.catr d (m ∷ [])))
              (visit_list-Ends _ (deps m) done (λ d x a.
                visit-Ends fuel (lib.cat active (m ∷ [])) d x (below m x a)
                  (omega (arith, unmarked-cat active m h e'))))
              (λ d. tt))
    ]
  ]

  pub lifecycle_order-Ends :
      (modules : List ℕ) → Below n modules → Ends (lifecycle_order lib deps n modules)
  unfolding lifecycle_order
  lifecycle_order-Ends modules h =
      visit_list-Ends (visit lib deps n []) modules []
        (λ d m a. visit-Ends n [] d m (h m a) (unmarked-le (lib.contains []) n))
