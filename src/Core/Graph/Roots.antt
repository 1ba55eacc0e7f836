-- ===== src/Core/Graph/Roots.antt =====
-- The root dependencies of a resource are the roots that it reaches.
use grevir_core.Common.{
  ℕ, zero, suc, ◌≤◌, ◌<◌, true, false, Option, some, List, [], ◌∷◌, ◌++◌, ◌≡◌, ◌↔◌, ◌⊎◌, inl, inr,
  refl, sym, subst, ap, ◌∙◌, arith, Among, Among-append, Among-append_left, Among-append_right,
  Bool-cases, ==_iff,
}
use grevir_core.Core.Graph.{Tuples, join, find_roots, is_root, root_of, root_dependencies}

module _ (lib : Tuples) (deps : ℕ → List ℕ) where
  -- It depends on nothing, or on nothing but itself.
  abbrev pub IsRoot : ℕ → Type 0
  IsRoot t = (deps t ≡ []) ⊎ (deps t ≡ t ∷ [])

  -- `r` is a root that is one of the resources, or that they depend on.
  pub data Leads : ℕ → ℕ → Type 0 where
    root : (t r : ℕ) → IsRoot t → t ≡ r → Leads t r
    down : (t d r : ℕ) → ¬ IsRoot t → Among d (deps t) → Leads d r → Leads t r

  abbrev pub AnyLeads : List ℕ → ℕ → Type 0
  AnyLeads ts r = (d : ℕ) × Among d ts × Leads d r

  -- What is found is exactly what the resources lead to.
  abbrev pub Finds : List ℕ → Option (List ℕ) → Type 0
  Finds ts o = (rs : List ℕ) × (o ≡ some rs) × ((r : ℕ) → Among r rs ↔ AnyLeads ts r)

  in_front : (t : ℕ) (ts : List ℕ) (r : ℕ) → AnyLeads (t ∷ []) r → AnyLeads (t ∷ ts) r
  in_front t ts r (d, inl p, l) = (d, inl p, l)
  in_front t ts r (d, inr q, l) = absurd q

  behind : (t : ℕ) (ts : List ℕ) (r : ℕ) → AnyLeads ts r → AnyLeads (t ∷ ts) r
  behind t ts r (d, m, l) = (d, inr m, l)

  either : (t : ℕ) (ts : List ℕ) (r : ℕ) → AnyLeads (t ∷ ts) r → AnyLeads (t ∷ []) r ⊎ AnyLeads ts r
  either t ts r (d, inl p, l) = inl (d, inl p, l)
  either t ts r (d, inr q, l) = inr (d, q, l)

  Finds-join :
      (t : ℕ) (ts : List ℕ) (xs ys : Option (List ℕ))
      → Finds (t ∷ []) xs
      → Finds ts ys
      → Finds (t ∷ ts) (join lib.tuple_concat xs ys)
  Finds-join t ts xs ys (rs, e, h) (ss, e', h') = (
    rs ++ ss,
    rw (e, e') (ap some (lib.tuple_concat_lem rs ss)),
    λ r. (
      λ a. elim (Among-append r rs ss a) [
        | inl b ↦ in_front t ts r ((h r).0 b)
        | inr b ↦ behind t ts r ((h' r).0 b)
      ],
      λ l. elim (either t ts r l) [
        | inl k ↦ Among-append_left r rs ss ((h r).1 k)
        | inr k ↦ Among-append_right r rs ss ((h' r).1 k)
      ],
    ),
  )

  find_roots-Finds :
      (f : ℕ → Option (List ℕ)) (ts : List ℕ)
      → ((t : ℕ) → Among t ts → Finds (t ∷ []) (f t))
      → Finds ts (find_roots lib deps f ts)
  unfolding find_roots
  find_roots-Finds f [] h = ([], refl, λ r. (λ a. absurd a, λ l. absurd l.1))
  find_roots-Finds f (t ∷ ts) h =
      Finds-join t ts (f t) (find_roots lib deps f ts) (h t (inl refl))
        (find_roots-Finds f ts (λ x m. h x (inr m)))

  IsRoot-subst : (t d : ℕ) → t ≡ d → IsRoot t → IsRoot d
  IsRoot-subst t d p = subst IsRoot p

  root_iff : (t : ℕ) (ds : List ℕ) → (is_root lib deps t ds ≡ true) ↔ ((ds ≡ []) ⊎ (ds ≡ t ∷ []))
  unfolding is_root
  root_iff t [] = ground arith
  root_iff t (d ∷ []) = ground (arith, ==_iff d t)
  root_iff t (d ∷ e ∷ ds) = ground arith

  itself : (t : ℕ) → IsRoot t → Finds (t ∷ []) (some (t ∷ []))
  itself t e = (
    t ∷ [],
    refl,
    λ r. (λ a. elim a [ inl p ↦ (t, inl refl, root t r e p) | inr q ↦ absurd q ], λ l. only r l),
  )
    where
      leads_to : (r : ℕ) (d : ℕ) → t ≡ d → Leads d r → (t ≡ r)
      leads_to r d p (root _ _ _ q) = p ∙ q
      leads_to r d p (down _ _ _ n _ _) = absurd (n (IsRoot-subst t d p e))

      only : (r : ℕ) → AnyLeads (t ∷ []) r → (t ≡ r) ⊎ ⊥
      only r (d, inl p, l) = inl (leads_to r d p l)
      only r (d, inr q, l) = absurd q

  -- One level further up.
  lifted : (t : ℕ) (o : Option (List ℕ)) → ¬ IsRoot t → Finds (deps t) o → Finds (t ∷ []) o
  lifted t o n (rs, e, h) = (
    rs,
    e,
    λ r.
        (λ a. let l = (h r).0 a in (t, inl refl, down t l.0 r n l.1 l.2), λ l. (h r).1 (below r l)),
  )
    where
      through : (r d : ℕ) → t ≡ d → Leads d r → AnyLeads (deps t) r
      through r d p (root _ _ y _) = absurd (n (IsRoot-subst d t (sym p) y))
      through r d p (down _ k _ _ m l) = (k, subst (λ (x : ℕ). Among k (deps x)) (sym p) m, l)

      below : (r : ℕ) → AnyLeads (t ∷ []) r → AnyLeads (deps t) r
      below r (d, inl p, l) = through r d p l
      below r (d, inr q, l) = absurd q

  some_dependency : (t : ℕ) (ds : List ℕ) → is_root lib deps t ds ≡ false → (d : ℕ) × Among d ds
  unfolding is_root
  some_dependency t [] n = cc
  some_dependency t (d ∷ ds) n = (d, inl refl)

  decided :
      (t : ℕ)
      → ((is_root lib deps t (deps t) ≡ true) × IsRoot t)
        ⊎ ((is_root lib deps t (deps t) ≡ false) × ¬ IsRoot t)
  decided t = ground (arith, root_iff t (deps t), Bool-cases (is_root lib deps t (deps t)))

  module _ (rank : ℕ → ℕ)
      (ranks : (t d : ℕ) → ¬ IsRoot t → Among d (deps t) → rank d < rank t) where
    root_of-Finds : (fuel t : ℕ) → rank t ≤ fuel → Finds (t ∷ []) (root_of lib deps fuel t)
    unfolding root_of
    root_of-Finds zero t h = elim (decided t) [
      | inl (e, y) ↦ rw e (itself t y)
      | inr (e, n) ↦
          let d = some_dependency t (deps t) e in absurd (omega (arith, ranks t d.0 n d.1))
    ]
    root_of-Finds (suc fuel) t h = elim (decided t) [
      | inl (e, y) ↦ rw e (itself t y)
      | inr (e, n) ↦ rw e (
          lifted t _ n (
            find_roots-Finds (root_of lib deps fuel) (deps t)
              (λ d m. root_of-Finds fuel d (omega (arith, ranks t d n m)))))
    ]

    -- A root is a resource that depends on nothing, or on nothing but itself (`IsRoot`). Where every
    -- resource that is no root is ranked above its dependencies, instances nested as deep as
    -- the ranks of the dependencies are enough, and `RootDependencies` lists exactly the roots that are
    -- dependencies of the resource, or that these lead to.
    pub root_dependencies-Finds :
        (fuel t : ℕ)
        → ((d : ℕ) → Among d (deps t) → rank d ≤ fuel)
        → Finds (deps t) (root_dependencies lib deps fuel t)
    unfolding root_dependencies
    root_dependencies-Finds fuel t h =
        find_roots-Finds (root_of lib deps fuel) (deps t) (λ d m. root_of-Finds fuel d (h d m))
