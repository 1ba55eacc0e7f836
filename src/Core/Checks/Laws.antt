-- ===== src/Core/Checks/Laws.antt =====
-- An application is refused exactly if two of all its claims conflict.
use grevir_core.Common.{ℕ, Bool, ◌||◌, List, [], ◌∷◌, ◌++◌, append-nil, ◌≡◌, refl, sym, ◌∙◌, arith}
use grevir_core.Core.Claims.{Claim, has_conflict}
use grevir_core.Core.Claims.Laws.{has_conflict_sym, self_conflict_pairs}
use grevir_core.Core.Pairs.{
  any, any_pair, cross, concat, any_ext, cross_flip, any_pair-append, cross-concat,
  cross-append_right, any_pair-concat, concat-cross, cross-absorbed, any_pair-absorbed,
}
use grevir_core.Core.Checks.{
  Scans, has_resource, param_param, param_params, params_params, self_params_of, self_params,
  self_modules, application_conflict,
}

module _ (lib : Scans) (canonical : ℕ → ℕ) where
  abbrev conflict : Claim → Claim → Bool
  conflict = has_conflict canonical

  param_param_lem :
      (pl pr : List Claim)
      → param_param lib canonical pl pr
        ≡ (cross conflict pl pr || any_pair conflict pl || any_pair conflict pr)
  unfolding param_param has_resource
  param_param_lem pl pr =
      rw
        (
          lib.scan_lem (has_resource lib canonical) pr pl,
          any_ext (has_resource lib canonical pr) (λ s. any (conflict s) pr)
              (λ s. lib.scan_lem conflict s pr) pl,
          self_conflict_pairs canonical pl,
          self_conflict_pairs canonical pr,
        )
        refl

  self_params_of_lem :
      (p : List Claim) (ps : List (List Claim))
      → self_params_of lib canonical p ps ≡ any_pair conflict (p ++ concat ps)
  unfolding self_params_of
  self_params_of_lem p [] = rw (append-nil p) (self_conflict_pairs canonical p)
  self_params_of_lem p (q ∷ ps) = ground (
    arith,
    param_param_lem p q,
    self_params_of_lem p ps,
    self_params_of_lem q ps,
    any_pair-append conflict p (concat ps),
    any_pair-append conflict q (concat ps),
    any_pair-append conflict p (q ++ concat ps),
    cross-append_right conflict p q (concat ps),
  )

  param_param_sym :
      (a b : List Claim) → param_param lib canonical a b ≡ param_param lib canonical b a
  param_param_sym a b = ground (
    arith,
    param_param_lem a b,
    param_param_lem b a,
    cross_flip conflict a b,
    any_ext (λ y. any (λ x. conflict x y) a) (λ y. any (conflict y) a)
        (λ y. any_ext (λ x. conflict x y) (conflict y) (λ x. has_conflict_sym canonical x y) a) b,
  )

  params_params_lem :
      (a b : List (List Claim))
      → params_params lib canonical a b ≡ cross (param_param lib canonical) a b
  unfolding params_params param_params
  params_params_lem a b =
      lib.scan_lem (param_params lib canonical) b a
      ∙ any_ext (param_params lib canonical b) (λ pl. any (param_param lib canonical pl) b)
          (λ pl. lib.scan_lem (param_param lib canonical) pl b) a

  params_params_sym :
      (a b : List (List Claim)) → params_params lib canonical a b ≡ params_params lib canonical b a
  params_params_sym a b =
      let pp = param_param lib canonical in
      params_params_lem a b
      ∙ cross_flip pp a b
      ∙ any_ext (λ y. any (λ x. pp x y) a) (λ y. any (pp y) a)
          (λ y. any_ext (λ x. pp x y) (pp y) (λ x. param_param_sym x y) a) b
      ∙ sym (params_params_lem b a)

  -- A module's own claims conflict.
  abbrev own : List (List Claim) → Bool
  own m = any_pair conflict (concat m)

  params_params-absorbed :
      (a b : List (List Claim))
      → (params_params lib canonical a b || own a || own b)
        ≡ (cross conflict (concat a) (concat b) || own a || own b)
  params_params-absorbed a b = ground (
    arith,
    params_params_lem a b,
    cross-absorbed (param_param lib canonical) (cross conflict) (any_pair conflict)
        (λ x y. ground (arith, param_param_lem x y)) a b,
    any_pair-concat conflict a,
    any_pair-concat conflict b,
    concat-cross conflict a b,
  )

  self_modules_lem : (ms : List (List (List Claim))) → self_modules lib canonical ms ≡ any own ms
  unfolding self_modules self_params
  self_modules_lem [] = refl
  self_modules_lem ([] ∷ ms) = self_modules_lem ms
  self_modules_lem ((p ∷ ps) ∷ ms) = ground (arith, self_params_of_lem p ps, self_modules_lem ms)

  -- All claims of an application: those of every parameter of every module.
  abbrev pub all_claims : List (List (List Claim)) → List Claim
  all_claims [] = []
  all_claims (m ∷ ms) = concat m ++ all_claims ms

  cross-all_claims :
      (xs : List Claim) (ms : List (List (List Claim)))
      → cross conflict xs (all_claims ms) ≡ any (λ m. cross conflict xs (concat m)) ms
  cross-all_claims xs [] = cross-concat conflict xs []
  cross-all_claims xs (m ∷ ms) =
      ground
        (arith, cross-append_right conflict xs (concat m) (all_claims ms), cross-all_claims xs ms)

  pairs_of_all :
      (ms : List (List (List Claim)))
      → any_pair conflict (all_claims ms)
        ≡ (any_pair (λ a b. cross conflict (concat a) (concat b)) ms || any own ms)
  pairs_of_all [] = refl
  pairs_of_all (m ∷ ms) = ground (
    arith,
    any_pair-append conflict (concat m) (all_claims ms),
    cross-all_claims (concat m) ms,
    pairs_of_all ms,
  )

  -- The checks of an application find a conflict exactly if, of all claims of all parameters of all its
  -- modules, one conflicts with a later one; it does not matter how the claims are spread over
  -- parameters and modules.
  pub application_conflict_pairs :
      (ms : List (List (List Claim)))
      → application_conflict lib canonical ms ≡ any_pair (has_conflict canonical) (all_claims ms)
  unfolding application_conflict
  application_conflict_pairs ms = ground (
    arith,
    lib.full_scan_lem (params_params lib canonical) params_params_sym ms,
    self_modules_lem ms,
    any_pair-absorbed (params_params lib canonical) (λ a b. cross conflict (concat a) (concat b))
        own params_params-absorbed ms,
    pairs_of_all ms,
  )
