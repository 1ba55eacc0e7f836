-- ===== src/Core/Lifecycle/Ordered.antt =====
-- An order that comes out has each module once, in front of all that it depends on.
use grevir_core.Common.{
  ℕ, zero, suc, false, List, [], ◌∷◌, ◌≡◌, ◌⊎◌, inl, inr, refl, subst, All, All-of, Among,
  Among-append_left, Among-append_right, Bool-cases,
}
use grevir_core.Core.TypeLists.{TypeLists}
use grevir_core.Core.Lifecycle.{
  Order, order, dependency_cycle, out_of_fuel, ◌>>=◌, visit_list, visit, lifecycle_order,
}

module _ (deps : ℕ → List ℕ) where
  -- Reached from the modules, by dependencies.
  pub data Reach (modules : List ℕ) : ℕ → Type 0 where
    root : (m : ℕ) → Among m modules → Reach modules m
    dep : (m d : ℕ) → Reach modules m → Among d (deps m) → Reach modules d

  -- Each module stands once, in front of its dependencies.
  abbrev pub IsOrdered : List ℕ → Type 0
  IsOrdered [] = Unit {0}
  IsOrdered (m ∷ rest) = ¬ Among m rest × All (λ d. Among d rest) (deps m) × IsOrdered rest

  -- What a visit of `modules` adds to `done` under `active`.
  pub record Extends (active modules done done' : List ℕ) : Type 0 where
    pub ordered : IsOrdered done'
    pub kept : (x : ℕ) → Among x done → Among x done'
    pub has : (x : ℕ) → Among x modules → Among x done'
    pub added : (x : ℕ) → Among x done' → Among x done ⊎ (¬ Among x active × Reach modules x)

  abbrev pub Visits : List ℕ → List ℕ → List ℕ → Order → Type 0
  Visits active modules done (order done') = Extends active modules done done'
  Visits active modules done dependency_cycle = Unit
  Visits active modules done out_of_fuel = Unit

  pub Reach-mono :
      (xs ys : List ℕ) → ((x : ℕ) → Among x xs → Reach ys x) → (x : ℕ) → Reach xs x → Reach ys x
  Reach-mono xs ys h x (root m a) = h m a
  Reach-mono xs ys h x (dep m d r a) = dep m d (Reach-mono xs ys h m r) a

  Visits-then :
      (active done tail rest : List ℕ) (m : ℕ) (o : Order)
      → Extends active rest done tail
      → Visits active (m ∷ []) tail o
      → Visits active (m ∷ rest) done o
  Visits-then active done tail rest m (order done') first then_m = record {
    ordered = then_m.ordered;
    kept = λ x a. then_m.kept x (first.kept x a);
    has = λ x a. elim a [ inl e ↦ then_m.has x (inl e) | inr a ↦ then_m.kept x (first.has x a) ];
    added = λ x a. elim (then_m.added x a) [
      | inl b ↦ elim (first.added x b) [
        | inl c ↦ inl c
        | inr (n, r) ↦ inr (n, Reach-mono rest (m ∷ rest) (λ y b. root y (inr b)) x r)
      ]
      | inr (n, r) ↦ inr (
        n,
        Reach-mono (m ∷ []) (m ∷ rest) (λ y b. elim b [ inl e ↦ root y (inl e) | inr c ↦ absurd c ])
            x r,
      )
    ];
  }
  Visits-then active done tail rest m dependency_cycle first then_m = tt
  Visits-then active done tail rest m out_of_fuel first then_m = tt

  Visits-bind :
      (v : List ℕ → ℕ → Order) (active done rest : List ℕ) (m : ℕ) (o : Order)
      → ((d : List ℕ) → IsOrdered d → Visits active (m ∷ []) d (v d m))
      → Visits active rest done o
      → Visits active (m ∷ rest) done (o >>= λ tail. v tail m)
  Visits-bind v active done rest m (order tail) h t =
      Visits-then active done tail rest m (v tail m) t (h tail t.ordered)
  Visits-bind v active done rest m dependency_cycle h t = tt
  Visits-bind v active done rest m out_of_fuel h t = tt

  visit_list-Visits :
      (v : List ℕ → ℕ → Order) (active : List ℕ)
      → ((d : List ℕ) (m : ℕ) → IsOrdered d → Visits active (m ∷ []) d (v d m))
      → (modules done : List ℕ) → IsOrdered done
      → Visits active modules done (visit_list v done modules)
  unfolding visit_list
  visit_list-Visits v active h [] done o = record {
    ordered = o;
    kept = λ x a. a;
    has = λ x a. absurd a;
    added = λ x a. inl a;
  }
  visit_list-Visits v active h (m ∷ rest) done o =
      Visits-bind v active done rest m (visit_list v done rest) (λ d. h d m)
        (visit_list-Visits v active h rest done o)

  already :
      (active done : List ℕ) (m : ℕ)
      → IsOrdered done
      → Among m done
      → Extends active (m ∷ []) done done
  already active done m o a = record {
    ordered = o;
    kept = λ x b. b;
    has = λ x b. elim b [ inl e ↦ subst (λ y. Among y done) e a | inr c ↦ absurd c ];
    added = λ x b. inl b;
  }

  module _ (lib : TypeLists ℕ) where
    in_front :
        (active done : List ℕ) (m : ℕ) (o : Order)
        → ¬ Among m done
        → ¬ Among m active
        → Visits (lib.cat active (m ∷ [])) (deps m) done o
        → Visits active (m ∷ []) done (o >>= λ d. order (lib.catr d (m ∷ [])))
    in_front active done m (order d) nd na t = rw (lib.catr_lem d (m ∷ [])) (record {
      ordered = (
        λ a. elim (t.added m a) [
          | inl b ↦ nd b
          | inr (n, r) ↦
              n (rw (lib.cat_lem active (m ∷ [])) (Among-append_right m active (m ∷ []) (inl refl)))
        ],
        All-of (λ x. Among x d) (deps m) t.has,
        t.ordered,
      );
      kept = λ x a. inr (t.kept x a);
      has = λ x a. elim a [ inl e ↦ inl e | inr c ↦ absurd c ];
      added = λ x a. elim a [
        | inl e ↦ inr (subst (λ y. ¬ Among y active) e na, root x (inl e))
        | inr b ↦ elim (t.added x b) [
          | inl c ↦ inl c
          | inr (n, r) ↦ inr (
            λ c. n (rw (lib.cat_lem active (m ∷ [])) (Among-append_left x active (m ∷ []) c)),
            Reach-mono (deps m) (m ∷ []) (λ y c. dep m y (root m (inl refl)) c) x r,
          )
        ]
      ];
    })
    in_front active done m dependency_cycle nd na t = tt
    in_front active done m out_of_fuel nd na t = tt

    not_among : (xs : List ℕ) (m : ℕ) → lib.contains xs m ≡ false → ¬ Among m xs
    not_among xs m e a = cc (e, (lib.contains_iff xs m).1 a)

    visit-Visits :
        (fuel : ℕ) (active done : List ℕ) (m : ℕ)
        → IsOrdered done
        → Visits active (m ∷ []) done (visit lib deps fuel active done m)
    unfolding visit
    visit-Visits zero active done m o = elim (Bool-cases (lib.contains done m)) [
      | inl e ↦ rw e (already active done m o ((lib.contains_iff done m).0 e))
      | inr e ↦ elim (Bool-cases (lib.contains active m)) [
        | inl e' ↦ rw (e, e') tt
        | inr e' ↦ rw (e, e') tt
      ]
    ]
    visit-Visits (suc fuel) active done m o = elim (Bool-cases (lib.contains done m)) [
      | inl e ↦ rw e (already active done m o ((lib.contains_iff done m).0 e))
      | inr e ↦ elim (Bool-cases (lib.contains active m)) [
        | inl e' ↦ rw (e, e') tt
        | inr e' ↦
            let active' = lib.cat active (m ∷ []) in
            rw (e, e')
              (in_front active done m _ (not_among done m e) (not_among active m e') (
                visit_list-Visits (visit lib deps fuel active') active'
                  (λ d x. visit-Visits fuel active' d x) (deps m) done o))
      ]
    ]

    -- An order of modules is one of all modules that these reach, each once, in front of those that it
    -- depends on.
    pub lifecycle_order-Extends :
        (fuel : ℕ) (modules out : List ℕ)
        → lifecycle_order lib deps fuel modules ≡ order out
        → Extends [] modules [] out
    unfolding lifecycle_order
    lifecycle_order-Extends fuel modules out e = subst (Visits [] modules []) e (
        visit_list-Visits (visit lib deps fuel []) [] (λ d m. visit-Visits fuel [] d m) modules []
          tt)
