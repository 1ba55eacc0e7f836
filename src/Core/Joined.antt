-- ===== src/Core/Joined.antt =====
-- src/grevir/core/allocated_application.hpp and resource_claims.hpp: the claims that are joined for the
-- allocation. A claim list is that of its `Resources`; a parameter is the list of its claims, a module
-- that of its parameters.
pub mod Laws
mod Tests
use grevir_core.Common.{List, [], ◌∷◌, map}
use grevir_core.Core.Claims.{Claim}

-- `Join<Lists...>`; `cat` is the base library's `xs::cat_type_arg<ys>`.
unfoldable pub join : {A : Type 0} → (List A → List A → List A) → List (List A) → List A
join cat [] = []
join cat (first ∷ rest) = cat first (join cat rest)

module _ (cat : List Claim → List Claim → List Claim) where
  -- `ParameterClaims<Params...>`
  unfoldable pub parameter_claims : List (List Claim) → List Claim
  parameter_claims params = join cat params

  -- `ModuleClaims<Modules...>`
  unfoldable pub module_claims : List (List (List Claim)) → List Claim
  module_claims modules = join cat (map parameter_claims modules)

  -- `ConcatenateResourceClaims<w_Claim1, w_Claim2>`
  unfoldable pub concatenate_claims : List Claim → List Claim → List Claim
  concatenate_claims claim1 claim2 = cat claim2 claim1
