-- ===== src/Core/Joined/Tests.antt =====
-- Two modules that share a timer.
use grevir_core.Common.{ℕ, false, List, [], ◌∷◌, ◌++◌, ◌≡◌, refl}
use grevir_core.Core.Claims.{
  gpio, timer, Claim, whole, shared, has_conflict, resource_conflict, self_conflict,
  self_conflict_of,
}
use grevir_core.Core.Samples.{scans}
use grevir_core.Core.Checks.{application_conflict}
use grevir_core.Core.Joined.{join, parameter_claims, module_claims}
use grevir_core.Core.Joined.Laws.{module_claims_conflict}

abbrev appended : List Claim → List Claim → List Claim
appended xs ys = xs ++ ys

abbrev own_pin : ℕ → ℕ
own_pin p = p

abbrev shared_timer : List Claim
shared_timer = shared (timer 0) 0 1 ∷ []

abbrev modules : List (List (List Claim))
modules = ((whole (gpio 1) ∷ []) ∷ shared_timer ∷ []) ∷ (shared_timer ∷ []) ∷ []

joined_modules :
    module_claims appended modules
    ≡ whole (gpio 1) ∷ shared (timer 0) 0 1 ∷ shared (timer 0) 0 1 ∷ []
unfolding module_claims parameter_claims join
joined_modules = refl

no_conflict_joined : self_conflict own_pin (module_claims appended modules) ≡ false
unfolding module_claims parameter_claims join self_conflict self_conflict_of has_conflict
    resource_conflict
no_conflict_joined = refl

module_claims_conflict_example :
    self_conflict own_pin (module_claims appended modules)
    ≡ application_conflict scans own_pin modules
module_claims_conflict_example =
    module_claims_conflict appended (λ xs ys. refl) scans own_pin modules
