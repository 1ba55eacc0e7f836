-- ===== src/Core/Checks/Tests.antt =====
-- Applications after tests/claim_cases.cpp.
use grevir_core.Common.{ℕ, true, false, List, [], ◌∷◌, ◌≡◌, refl}
use grevir_core.Core.Claims.{
  gpio, timer, other, Claim, whole, range, shared, has_conflict, resource_conflict, self_conflict,
  self_conflict_of,
}
use grevir_core.Core.Pairs.{any_pair}
use grevir_core.Core.Samples.{scans}
use grevir_core.Core.Checks.{
  has_resource, param_param, param_params, params_params, self_params_of, self_params, self_modules,
  application_conflict,
}
use grevir_core.Core.Checks.Laws.{all_claims, application_conflict_pairs}

abbrev same_pin : ℕ → ℕ
same_pin p = p

abbrev pin_1 : List Claim
pin_1 = whole (gpio 1) ∷ []

abbrev low_range : List Claim
low_range = range (other 0) 0 4 ∷ []

abbrev high_range : List Claim
high_range = range (other 0) 4 8 ∷ []

abbrev shared_slow : List Claim
shared_slow = shared (timer 0) 0 1 ∷ []

abbrev fitting_application : List (List (List Claim))
fitting_application =
    (pin_1 ∷ [])
    ∷ ((whole (gpio 2) ∷ []) ∷ shared_slow ∷ low_range ∷ [])
    ∷ (shared_slow ∷ high_range ∷ [])
    ∷ []

no_conflict : application_conflict scans same_pin fitting_application ≡ false
unfolding application_conflict params_params param_params param_param has_resource has_conflict
    resource_conflict self_modules self_params self_params_of self_conflict self_conflict_of
no_conflict = refl

pin_claimed_twice : application_conflict scans same_pin ((pin_1 ∷ pin_1 ∷ []) ∷ []) ≡ true
unfolding application_conflict params_params param_params param_param has_resource has_conflict
    resource_conflict self_modules self_params self_params_of self_conflict self_conflict_of
pin_claimed_twice = refl

application_conflict_pairs_example :
    application_conflict scans same_pin fitting_application
    ≡ any_pair (has_conflict same_pin) (all_claims scans same_pin fitting_application)
application_conflict_pairs_example = application_conflict_pairs scans same_pin fitting_application
