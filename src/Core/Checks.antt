-- ===== src/Core/Checks.antt =====
-- src/grevir/core/resource_checks.hpp: the conflict checks of parameters, modules and an application. A
-- parameter is the list of its claims, a module that of its parameters.
pub mod Laws
mod Tests
use grevir_core.Common.{ℕ, Bool, true, false, ◌||◌, List, [], ◌∷◌, ◌≡◌}
use grevir_core.Core.Claims.{Claim, has_conflict, self_conflict}
use grevir_core.Core.Pairs.{any, any_pair}

-- The scanners of the base library that the checks call, each with `setl::OrEval`. Their code is in
-- another repository: they are a parameter, with the laws that the checks rely on.
pub record Scans : Type 1 where
  -- `setl::For<setl::Operator<Test, setl::OrEval>, v, ts...>`
  pub scan : {V T : Type 0} → (V → T → Bool) → V → List T → Bool
  -- `setl::AutoFor<ts...>::FullScanner<setl::Operator<Test, setl::OrEval>>`
  pub full_scan : {T : Type 0} → (T → T → Bool) → List T → Bool
  pub scan_lem :
      {V T : Type 0} (test : V → T → Bool) (v : V) (ts : List T) → scan test v ts ≡ any (test v) ts
  pub full_scan_lem :
      {T : Type 0} (test : T → T → Bool)
      → ((a b : T) → test a b ≡ test b a)
      → (ts : List T) → full_scan test ts ≡ any_pair test ts

-- `canonical` is the board's `CanonicalGPIO`.
module _ (lib : Scans) (canonical : ℕ → ℕ) where
  -- `ResourceClaim<R...>::has_resource<S>`, and `ClaimsClaimConflictTest`
  unfoldable pub has_resource : List Claim → Claim → Bool
  has_resource claims s = lib.scan (has_conflict canonical) s claims

  -- `ParamParamConflictTest<PL, PR>`
  unfoldable pub param_param : List Claim → List Claim → Bool
  param_param pl pr =
      lib.scan has_resource pr pl || self_conflict canonical pl || self_conflict canonical pr

  -- `ParamParamsConflictTest<PSR, PL>`
  unfoldable pub param_params : List (List Claim) → List Claim → Bool
  param_params psr pl = lib.scan param_param pl psr

  -- `ParamsParamsConflictTest<PSL, PSR>`, and `ModuleConflictTest`
  unfoldable pub params_params : List (List Claim) → List (List Claim) → Bool
  params_params psl psr = lib.scan param_params psr psl

  -- `SelfModuleParamsConflictTest<Param1, Params...>`
  unfoldable pub self_params_of : List Claim → List (List Claim) → Bool
  self_params_of p [] = self_conflict canonical p
  self_params_of p (q ∷ ps) = param_param p q || self_params_of p ps || self_params_of q ps

  unfoldable pub self_params : List (List Claim) → Bool
  self_params [] = false
  self_params (p ∷ ps) = self_params_of p ps

  -- `SelfModuleConflictTest<Ms...>`
  unfoldable pub self_modules : List (List (List Claim)) → Bool
  self_modules [] = false
  self_modules (m ∷ ms) = self_params m || self_modules ms

  -- `Application<Modules...>::has_conflict`, for the modules of the closure
  unfoldable pub application_conflict : List (List (List Claim)) → Bool
  application_conflict modules = lib.full_scan params_params modules || self_modules modules
