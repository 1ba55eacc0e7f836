-- ===== src/Core/Claims/Tests.antt =====
-- Claims of two boards' pins and of memory ranges.
use grevir_core.Common.{ℕ, ◌≤◌, ◌<◌, true, List, [], ◌∷◌, ◌≡◌, ◌↔◌, refl, arith, ◌%◌}
use grevir_core.Core.Claims.{
  gpio, timer, other, Claim, whole, range, shared, same_resource, has_conflict, resource_conflict,
  self_conflict, self_conflict_of,
}
use grevir_core.Core.Pairs.{any_pair}
use grevir_core.Core.Claims.Laws.{self_conflict_pairs, range_conflict_iff}

-- The pins 0 and 8 are one pin.
abbrev pins : ℕ → ℕ
pins p = p % 8

abbrev memory : ℕ → ℕ → Claim
memory b e = range (other 0) b e

abbrev claims : List Claim
claims = whole (gpio 8) ∷ shared (timer 1) 2 50 ∷ memory 0 4 ∷ memory 4 8 ∷ whole (gpio 0) ∷ []

self_conflict-claims : self_conflict pins claims ≡ true
unfolding self_conflict self_conflict_of has_conflict resource_conflict
self_conflict-claims = refl

self_conflict_pairs_example : self_conflict pins claims ≡ any_pair (has_conflict pins) claims
self_conflict_pairs_example = self_conflict_pairs pins claims

range_conflict_iff_example : (has_conflict pins (memory 0 4) (memory 3 8) ≡ true) ↔ (
    (same_resource (other 0) (other 0) ≡ true)
    × ((n : ℕ) × ((0 ≤ n) × (n < 4)) × (3 ≤ n) × (n < 8)))
range_conflict_iff_example =
    range_conflict_iff pins (other 0) (other 0) 0 4 3 8 (omega arith) (omega arith)
