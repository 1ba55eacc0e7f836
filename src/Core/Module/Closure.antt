-- ===== src/Core/Module/Closure.antt =====
-- The closure of modules is all that they reach by dependencies, each module once.
use grevir_core.Common.{
  ℕ, zero, suc, ◌≤◌, false, some, List, [], ◌∷◌, ◌++◌, ◌≡◌, ◌↔◌, ◌⊎◌, inl, inr, refl, sym, subst,
  arith, Among, Among-append, Among-append_left, Among-append_right, Bool-cases, unmarked,
  unmarked-le, marked_of_zero,
}
use grevir_core.Core.TypeLists.{TypeLists}
use grevir_core.Core.Lifecycle.Ordered.{Reach, root, dep}
use grevir_core.Core.Lifecycle.Fuel.{Below, unmarked-cat}
use grevir_core.Core.Module.{closure, module_closure}

abbrev pub IsOnce : List ℕ → Type 0
IsOnce [] = Unit {0}
IsOnce (x ∷ xs) = ¬ Among x xs × IsOnce xs

IsOnce-append : (xs : List ℕ) (t : ℕ) → IsOnce xs → ¬ Among t xs → IsOnce (xs ++ t ∷ [])
IsOnce-append [] t o n = (λ a. a, tt)
IsOnce-append (x ∷ xs) t (nx, o) n = (
  λ a. elim (Among-append x xs (t ∷ []) a) [
    | inl b ↦ nx b
    | inr b ↦ elim b [ inl e ↦ n (inl (sym e)) | inr c ↦ c ]
  ],
  IsOnce-append xs t o (λ a. n (inr a)),
)

module _ (lib : TypeLists ℕ) (deps : ℕ → List ℕ) (roots : List ℕ) where
  -- Between two steps of the closure.
  pub record IsClosing (contained pending : List ℕ) : Type 0 where
    pub once : IsOnce contained
    pub fresh : (x : ℕ) → Among x pending → ¬ Among x contained
    pub closed :
        (m d : ℕ) → Among m contained → Among d (deps m) → Among d contained ⊎ Among d pending
    pub started : (x : ℕ) → Among x roots → Among x contained ⊎ Among x pending
    pub sound : (x : ℕ) → Among x contained ⊎ Among x pending → Reach deps roots x

  among_cat : (x : ℕ) (xs ys : List ℕ) → Among x (lib.cat xs ys) ↔ (Among x xs ⊎ Among x ys)
  among_cat x xs ys = rw (lib.cat_lem xs ys) (
    Among-append x xs ys,
    λ s. elim s [ inl a ↦ Among-append_left x xs ys a | inr a ↦ Among-append_right x xs ys a ],
  )

  queued_or_done :
      (c more : List ℕ) (x : ℕ) → Among x more → Among x c ⊎ Among x (lib.remove_all more c)
  queued_or_done c more x a = elim (Bool-cases (lib.contains c x)) [
    | inl e ↦ inl ((lib.contains_iff c x).0 e)
    | inr e ↦ inr ((lib.remove_all_iff more c x).1 (a, λ b. cc (e, (lib.contains_iff c x).1 b)))
  ]

  not_yet : (c : List ℕ) (t : ℕ) → ¬ Among t c → lib.contains c t ≡ false
  not_yet c t n = elim (Bool-cases (lib.contains c t)) [
    | inl e ↦ absurd (n ((lib.contains_iff c t).0 e))
    | inr e ↦ e
  ]

  -- What was to do before a step is done or to do after it.
  moved :
      (contained : List ℕ) (t : ℕ) (rest : List ℕ) (x : ℕ)
      → Among x contained ⊎ (Among x (t ∷ rest) ⊎ Among x (deps t))
      → let c = lib.cat contained (t ∷ []) in
        Among x c ⊎ Among x (lib.remove_all (lib.cat (deps t) rest) c)
  moved contained t rest x (inl old) = inl ((among_cat x contained (t ∷ [])).1 (inl old))
  moved contained t rest x (inr (inl (inl e))) =
      inl ((among_cat x contained (t ∷ [])).1 (inr (inl e)))
  moved contained t rest x (inr (inl (inr r))) =
      queued_or_done (lib.cat contained (t ∷ [])) (lib.cat (deps t) rest) x
        ((among_cat x (deps t) rest).1 (inr r))
  moved contained t rest x (inr (inr d)) =
      queued_or_done (lib.cat contained (t ∷ [])) (lib.cat (deps t) rest) x
        ((among_cat x (deps t) rest).1 (inl d))

  step-IsClosing :
      (contained : List ℕ) (t : ℕ) (rest : List ℕ)
      → IsClosing contained (t ∷ rest)
      → let c = lib.cat contained (t ∷ []) in IsClosing c (lib.remove_all (lib.cat (deps t) rest) c)
  step-IsClosing contained t rest v =
      let c = lib.cat contained (t ∷ []) in
      let more = lib.cat (deps t) rest in
      record {
        once =
            rw (lib.cat_lem contained (t ∷ []))
              (IsOnce-append contained t v.once (v.fresh t (inl refl)));
        fresh = λ x a. ((lib.remove_all_iff more c x).0 a).1;
        closed = λ m d a b. elim ((among_cat m contained (t ∷ [])).0 a) [
          | inl old ↦ elim (v.closed m d old b) [
            | inl in_contained ↦ moved contained t rest d (inl in_contained)
            | inr p ↦ moved contained t rest d (inr (inl p))
          ]
          | inr new ↦ elim new [
            | inl e ↦ moved contained t rest d (inr (inr (subst (λ y. Among d (deps y)) (sym e) b)))
            | inr q ↦ absurd q
          ]
        ];
        started = λ x a. elim (v.started x a) [
          | inl old ↦ moved contained t rest x (inl old)
          | inr p ↦ moved contained t rest x (inr (inl p))
        ];
        sound = λ x s. elim s [
          | inl a ↦ elim ((among_cat x contained (t ∷ [])).0 a) [
            | inl old ↦ v.sound x (inl old)
            | inr new ↦ elim new [ inl e ↦ v.sound x (inr (inl e)) | inr q ↦ absurd q ]
          ]
          | inr a ↦ elim ((among_cat x (deps t) rest).0 ((lib.remove_all_iff more c x).0 a).0) [
            | inl d ↦ dep t x (v.sound t (inr (inl refl))) d
            | inr r ↦ v.sound x (inr (inr r))
          ]
        ];
      }

  -- The closure of an application: all modules that its own reach, each once.
  pub record IsClosure (c : List ℕ) : Type 0 where
    pub once : IsOnce c
    pub members : (x : ℕ) → Among x c ↔ Reach deps roots x

  closing_done : (contained : List ℕ) → IsClosing contained [] → IsClosure contained
  closing_done contained v = record {
    once = v.once;
    members = λ x. (λ a. v.sound x (inl a), λ r. reached x r);
  }
    where
      kept : (x : ℕ) → Among x contained ⊎ ⊥ → Among x contained
      kept x (inl a) = a
      kept x (inr q) = absurd q

      reached : (x : ℕ) → Reach deps roots x → Among x contained
      reached x (root _ a) = kept x (v.started x a)
      reached x (dep m _ r a) = kept x (v.closed m x (reached m r) a)

  module _ (n : ℕ) (below : (m : ℕ) → Below n (deps m)) where
    closure-IsClosure :
        (fuel : ℕ) (contained pending : List ℕ)
        → IsClosing contained pending
        → Below n pending
        → unmarked (lib.contains contained) n ≤ fuel
        → (c : List ℕ) × (closure lib deps fuel contained pending ≡ some c) × IsClosure c
    unfolding closure
    closure-IsClosure fuel contained [] v b few = (contained, refl, closing_done contained v)
    closure-IsClosure zero contained (t ∷ rest) v b few = absurd (
        v.fresh t (inl refl) (
          (lib.contains_iff contained t).0
            (marked_of_zero (lib.contains contained) n t few (b t (inl refl)))))
    closure-IsClosure (suc fuel) contained (t ∷ rest) v b few =
        let c = lib.cat contained (t ∷ []) in
        let more = lib.cat (deps t) rest in
        closure-IsClosure fuel c (lib.remove_all more c) (step-IsClosing contained t rest v)
          (λ x a. elim ((among_cat x (deps t) rest).0 ((lib.remove_all_iff more c x).0 a).0) [
            | inl d ↦ below t x d
            | inr r ↦ b x (inr r)
          ])
          (omega (
            arith,
            unmarked-cat lib deps n below contained t (b t (inl refl))
                (not_yet contained t (v.fresh t (inl refl))),
          ))

    -- With modules numbered below `n`, `n` steps are enough for the closure of any of them, which has
    -- exactly the modules that they reach by dependencies, each once.
    pub module_closure-IsClosure :
        Below n roots → (c : List ℕ) × (module_closure lib deps n roots ≡ some c) × IsClosure c
    unfolding module_closure
    module_closure-IsClosure b =
        closure-IsClosure n [] roots
          (record {
            once = tt;
            fresh = λ x a c. c;
            closed = λ m d a. absurd a;
            started = λ x a. inr a;
            sound = λ x s. elim s [ inl a ↦ absurd a | inr a ↦ root x a ];
          })
          b (unmarked-le (lib.contains []) n)
