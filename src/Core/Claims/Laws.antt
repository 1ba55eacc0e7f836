-- ===== src/Core/Claims/Laws.antt =====
-- When claims conflict.
use grevir_core.Common.{ℕ, ◌+◌, ◌-◌, ◌≤◌, ◌<◌, true, ◌||◌, List, [], ◌∷◌, ◌≡◌, ◌↔◌, refl, arith}
use grevir_core.Core.Pairs.{any, any_pair}
use grevir_core.Core.Claims.{
  Resource, gpio, serial, timer, other, Claim, whole, range, shared, same_resource,
  resource_conflict, has_conflict, self_conflict_of, self_conflict,
}

same_resource_sym : (a b : Resource) → same_resource a b ≡ same_resource b a
same_resource_sym (gpio a) (gpio b) = ground arith
same_resource_sym (serial a) (serial b) = ground arith
same_resource_sym (timer a) (timer b) = ground arith
same_resource_sym (other a) (other b) = ground arith
same_resource_sym (gpio a) (serial b) = refl
same_resource_sym (gpio a) (timer b) = refl
same_resource_sym (gpio a) (other b) = refl
same_resource_sym (serial a) (gpio b) = refl
same_resource_sym (serial a) (timer b) = refl
same_resource_sym (serial a) (other b) = refl
same_resource_sym (timer a) (gpio b) = refl
same_resource_sym (timer a) (serial b) = refl
same_resource_sym (timer a) (other b) = refl
same_resource_sym (other a) (gpio b) = refl
same_resource_sym (other a) (serial b) = refl
same_resource_sym (other a) (timer b) = refl

same_resource_refl : (a : Resource) → same_resource a a ≡ true
same_resource_refl (gpio a) = ground arith
same_resource_refl (serial a) = ground arith
same_resource_refl (timer a) = ground arith
same_resource_refl (other a) = ground arith

module _ (canonical : ℕ → ℕ) where
  resource_conflict_sym :
      (a b : Resource) → resource_conflict canonical a b ≡ resource_conflict canonical b a
  unfolding resource_conflict
  resource_conflict_sym (gpio a) (gpio b) = ground arith
  resource_conflict_sym (gpio a) (serial b) = refl
  resource_conflict_sym (gpio a) (timer b) = refl
  resource_conflict_sym (gpio a) (other b) = refl
  resource_conflict_sym (serial a) (gpio b) = refl
  resource_conflict_sym (serial a) (serial b) = same_resource_sym (serial a) (serial b)
  resource_conflict_sym (serial a) (timer b) = refl
  resource_conflict_sym (serial a) (other b) = refl
  resource_conflict_sym (timer a) (gpio b) = refl
  resource_conflict_sym (timer a) (serial b) = refl
  resource_conflict_sym (timer a) (timer b) = same_resource_sym (timer a) (timer b)
  resource_conflict_sym (timer a) (other b) = refl
  resource_conflict_sym (other a) (gpio b) = refl
  resource_conflict_sym (other a) (serial b) = refl
  resource_conflict_sym (other a) (timer b) = refl
  resource_conflict_sym (other a) (other b) = same_resource_sym (other a) (other b)

  -- Whether two claims conflict does not depend on their order, for every assignment of canonical pins.
  pub has_conflict_sym : (c d : Claim) → has_conflict canonical c d ≡ has_conflict canonical d c
  unfolding has_conflict
  has_conflict_sym (whole a) (whole b) = resource_conflict_sym a b
  has_conflict_sym (whole a) (range u b e) = same_resource_sym a u
  has_conflict_sym (whole a) (shared u i p) = same_resource_sym a u
  has_conflict_sym (range t b e) (whole u) = same_resource_sym t u
  has_conflict_sym (range t b1 e1) (range u b2 e2) = ground (arith, same_resource_sym t u)
  has_conflict_sym (range t b e) (shared u i p) = refl
  has_conflict_sym (shared t i p) (whole u) = same_resource_sym t u
  has_conflict_sym (shared t i p) (range u b e) = refl
  has_conflict_sym (shared t i p) (shared u j q) = ground (arith, same_resource_sym t u)

  self_conflict_of_pairs :
      (c : Claim) (cs : List Claim)
      → self_conflict_of canonical c cs
        ≡ (any (has_conflict canonical c) cs || any_pair (has_conflict canonical) cs)
  unfolding self_conflict_of
  self_conflict_of_pairs c [] = refl
  self_conflict_of_pairs c (d ∷ ds) =
      ground (arith, self_conflict_of_pairs c ds, self_conflict_of_pairs d ds)

  -- The recursive conflict test of one claim list finds a conflict exactly if some claim of the list
  -- conflicts with a later one.
  pub self_conflict_pairs :
      (cs : List Claim) → self_conflict canonical cs ≡ any_pair (has_conflict canonical) cs
  unfolding self_conflict
  self_conflict_pairs [] = refl
  self_conflict_pairs (c ∷ cs) = self_conflict_of_pairs c cs

  common_number :
      (b1 e1 b2 e2 : ℕ)
      → b1 < e1
      → b2 < e2
      → ((b2 < e1) × (b1 < e2)) ↔ ((n : ℕ) × ((b1 ≤ n) × (n < e1)) × (b2 ≤ n) × (n < e2))
  common_number b1 e1 b2 e2 g1 g2 = (
    λ p. (b1 + (b2 - b1), (omega arith, omega arith), omega arith, omega arith),
    λ t. (omega arith, omega arith),
  )

  -- Two nonempty ranges conflict exactly if they are of the same resource and a number lies in both.
  pub range_conflict_iff :
      (t u : Resource) (b1 e1 b2 e2 : ℕ)
      → b1 < e1
      → b2 < e2
      → (has_conflict canonical (range t b1 e1) (range u b2 e2) ≡ true)
        ↔ ((same_resource t u ≡ true) × ((n : ℕ) × ((b1 ≤ n) × (n < e1)) × (b2 ≤ n) × (n < e2)))
  unfolding has_conflict
  range_conflict_iff t u b1 e1 b2 e2 g1 g2 = ground (arith, common_number b1 e1 b2 e2 g1 g2)
