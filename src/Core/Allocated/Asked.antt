-- ===== src/Core/Allocated/Asked.antt =====
-- What an allocated application asks its backend for, described without the loops over the descriptors.
use grevir_core.Common.{
  ℕ, none, Option, some, List, [], ◌∷◌, ◌++◌, map, ◌≡◌, ◌⊎◌, inl, inr, refl, sym, subst, ap, ◌∙◌,
}
use grevir_core.Core.TypeLists.{TypeLists, Cats}
use grevir_core.Core.Claims.{Claim}
use grevir_core.Core.Checks.{Scans}
use grevir_core.Core.Checks.Laws.{all_claims}
use grevir_core.Core.Joined.{join}
use grevir_core.Core.Joined.Laws.{module_claims_lem}
use grevir_core.Core.Lifecycle.Fuel.{Below}
use grevir_core.Core.Module.Closure.{IsClosure, module_closure-IsClosure}
use grevir_core.Core.Allocated.{
  NamedRequest, BoundModule, RequestedModule, requests_of, existing_claims, claims_of,
  joined_claims, joined_requests,
}

module _ {S : Type 0} (cats : Cats) (requested : ℕ → Option (RequestedModule S))
    (code : ℕ → BoundModule S) (lib : TypeLists ℕ) (scans : Scans) (canonical : ℕ → ℕ) where
  abbrev pub code_deps : ℕ → List ℕ
  code_deps m = (code m).deps

  -- The requests and the claims that these descriptors ask for: a requested module asks for its
  -- requests and its fixed claims; an existing module for the claims of all parameters of all modules
  -- that it reaches.
  pub data Asks : List ℕ → List NamedRequest → List Claim → Type 0 where
    nothing : Asks [] [] []
    of_requested :
        (d : ℕ) (q : RequestedModule S) (ds : List ℕ) (rs : List NamedRequest) (cs : List Claim)
        → requested d ≡ some q
        → Asks ds rs cs
        → Asks (d ∷ ds) (q.requests ++ rs) (q.claims ++ cs)
    of_existing :
        (d : ℕ) (ms ds : List ℕ) (rs : List NamedRequest) (cs : List Claim)
        → requested d ≡ none
        → IsClosure lib code_deps (d ∷ []) ms
        → Asks ds rs cs
        → Asks (d ∷ ds) rs (all_claims scans canonical (map (λ m. (code m).claims) ms) ++ cs)

  module _ (fuel : ℕ) (below : (m : ℕ) → Below fuel (code_deps m)) where
    existing_claims-closed :
        (d : ℕ)
        → Below fuel (d ∷ [])
        → (ms : List ℕ) × IsClosure lib code_deps (d ∷ []) ms
          × (existing_claims cats requested code lib fuel d
              ≡ some (all_claims scans canonical (map (λ m. (code m).claims) ms)))
    unfolding existing_claims
    existing_claims-closed d b =
        let (ms, found, v) = module_closure-IsClosure lib code_deps (d ∷ []) fuel below b in
        (
          ms,
          v,
          rw (found, existing_claims)
              (ap some (
                module_claims_lem cats.cat cats.cat_lem scans canonical
                  (map (λ m. (code m).claims) ms))),
        )

    option_cases : {A : Type 0} (o : Option A) → (o ≡ none) ⊎ ((x : A) × (o ≡ some x))
    option_cases none = inl refl
    option_cases (some x) = inr (x, refl)

    joined_cons :
        (d : ℕ) (ds : List ℕ) (first rest : List Claim)
        → claims_of cats requested code lib fuel d ≡ some first
        → joined_claims cats requested code lib fuel ds ≡ some rest
        → joined_claims cats requested code lib fuel (d ∷ ds) ≡ some (first ++ rest)
    unfolding joined_claims
    joined_cons d ds first rest e f = rw (e, f, joined_claims) (ap some (cats.cat_lem first rest))

    requests_cons :
        (d : ℕ) (ds : List ℕ) (rs : List NamedRequest)
        → requests_of cats requested code d ≡ rs
        → rs ++ joined_requests cats requested code ds
          ≡ joined_requests cats requested code (d ∷ ds)
    unfolding joined_requests join
    requests_cons d ds rs e =
        rw e (sym (cats.cat_lem rs (join cats.cat (map (requests_of cats requested code) ds))))

    -- What one more descriptor asks for, if the claims of the others were joined.
    abbrev HasAsked : List ℕ → Type 0
    HasAsked ds =
        (claims : List Claim) × (joined_claims cats requested code lib fuel ds ≡ some claims)
        × Asks ds (joined_requests cats requested code ds) claims

    HasAsked-existing :
        (d : ℕ) (ds : List ℕ)
        → requested d ≡ none
        → Below fuel (d ∷ [])
        → HasAsked ds
        → HasAsked (d ∷ ds)
    unfolding claims_of requests_of
    HasAsked-existing d ds e b (cs, j, a) =
        let (ms, v, f) = existing_claims-closed d b in
        let own = all_claims scans canonical (map (λ m. (code m).claims) ms) in
        (
          own ++ cs,
          joined_cons d ds own cs (rw (e, claims_of) f) j,
          subst (λ r. Asks (d ∷ ds) r (own ++ cs))
              (requests_cons d ds [] (rw (e, requests_of) refl))
              (of_existing d ms ds (joined_requests cats requested code ds) cs e v a),
        )

    HasAsked-requested :
        (d : ℕ) (q : RequestedModule S) (ds : List ℕ)
        → requested d ≡ some q
        → HasAsked ds
        → HasAsked (d ∷ ds)
    unfolding claims_of requests_of
    HasAsked-requested d q ds e (cs, j, a) = (
      q.claims ++ cs,
      joined_cons d ds q.claims cs (rw (e, claims_of) refl) j,
      subst (λ r. Asks (d ∷ ds) r (q.claims ++ cs))
          (requests_cons d ds q.requests (rw (e, requests_of) refl))
          (of_requested d q ds (joined_requests cats requested code ds) cs e a),
    )

    joined_claims-HasAsked : (ds : List ℕ) → Below fuel ds → HasAsked ds
    unfolding joined_claims joined_requests join
    joined_claims-HasAsked [] b = ([], refl, nothing)
    joined_claims-HasAsked (d ∷ ds) b =
        let rest = joined_claims-HasAsked ds (λ x m. b x (inr m)) in
        elim (option_cases (requested d)) [
          | inl e ↦
              HasAsked-existing d ds e (λ x m. elim m [ inl p ↦ b x (inl p) | inr n ↦ absurd n ])
                rest
          | inr (q, e) ↦ HasAsked-requested d q ds e rest
        ]

    -- The descriptors that were joined ask for these requests and claims.
    pub joined-Asks :
        (ds : List ℕ) (claims : List Claim)
        → Below fuel ds
        → joined_claims cats requested code lib fuel ds ≡ some claims
        → Asks ds (joined_requests cats requested code ds) claims
    joined-Asks ds claims b h =
        let (cs, j, a) = joined_claims-HasAsked ds b in
        subst (λ c. Asks ds (joined_requests cats requested code ds) c) (some_inj (sym j ∙ h)) a
      where
        some_inj : {x y : List Claim} → some x ≡ some y → x ≡ y
        some_inj e = cc e
