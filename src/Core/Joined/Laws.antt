-- ===== src/Core/Joined/Laws.antt =====
-- The joined claims of modules conflict with themselves exactly if the modules' application does.
use grevir_core.Common.{ℕ, ◌||◌, List, [], ◌∷◌, ◌++◌, ◌≡◌, refl, sym, ap, ◌∙◌, arith}
use grevir_core.Core.Claims.{Claim, has_conflict, self_conflict}
use grevir_core.Core.Claims.Laws.{self_conflict_pairs, has_conflict_sym}
use grevir_core.Core.Pairs.{any, any_pair, cross, concat, any_pair-append, cross_flip, any_ext}
use grevir_core.Core.Checks.{Scans, application_conflict}
use grevir_core.Core.Checks.Laws.{all_claims, application_conflict_pairs}
use grevir_core.Core.Joined.{join, parameter_claims, module_claims, concatenate_claims}

module _ (cat : List Claim → List Claim → List Claim)
    (cat_lem : (xs ys : List Claim) → cat xs ys ≡ xs ++ ys) where
  join_lem : (xss : List (List Claim)) → join cat xss ≡ concat xss
  unfolding join
  join_lem [] = refl
  join_lem (xs ∷ xss) = cat_lem xs (join cat xss) ∙ ap (λ ys. xs ++ ys) (join_lem xss)

  module _ (lib : Scans) (canonical : ℕ → ℕ) where
    pub module_claims_lem :
        (ms : List (List (List Claim))) → module_claims cat ms ≡ all_claims lib canonical ms
    unfolding module_claims parameter_claims join
    module_claims_lem [] = refl
    module_claims_lem (m ∷ ms) =
        cat_lem (join cat m) (module_claims cat ms)
        ∙ (ap (λ xs. xs ++ module_claims cat ms) (join_lem m)
            ∙ ap (λ ys. concat m ++ ys) (module_claims_lem ms))

    -- Where `cat_type_arg` appends, the claims that an existing module's closure hands to the
    -- allocation conflict among themselves exactly if the checks of an application of these modules
    -- find a conflict.
    pub module_claims_conflict :
        (ms : List (List (List Claim)))
        → self_conflict canonical (module_claims cat ms) ≡ application_conflict lib canonical ms
    module_claims_conflict ms =
        self_conflict_pairs canonical (module_claims cat ms)
        ∙ (ap (any_pair (has_conflict canonical)) (module_claims_lem ms)
            ∙ sym (application_conflict_pairs lib canonical ms))

  -- Where `cat_type_arg` appends, two concatenated claims conflict among themselves exactly if the first
  -- or the second does, or a resource of the first conflicts with one of the second.
  pub concatenate_claims_conflict :
      (canonical : ℕ → ℕ) (a b : List Claim)
      → self_conflict canonical (concatenate_claims cat a b) ≡ (
          self_conflict canonical a
          || (self_conflict canonical b || cross (has_conflict canonical) a b))
  unfolding concatenate_claims
  concatenate_claims_conflict canonical a b =
      let r = has_conflict canonical in
      ground (
        arith,
        ap (self_conflict canonical) (cat_lem b a),
        self_conflict_pairs canonical (b ++ a),
        self_conflict_pairs canonical a,
        self_conflict_pairs canonical b,
        any_pair-append r b a,
        cross_flip r b a,
        any_ext (λ y. any (λ x. r x y) b) (λ y. any (r y) b)
            (λ y. any_ext (λ x. r x y) (r y) (λ x. has_conflict_sym canonical x y) b) a,
      )
