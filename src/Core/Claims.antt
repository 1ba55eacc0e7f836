-- ===== src/Core/Claims.antt =====
-- src/grevir/core/resource_claims.hpp and resource_checks.hpp: which resource claims conflict, and the
-- checks of a parameter and of a module.
pub mod Laws
mod Tests
use grevir_core.Common.{
  ℕ, Bool, true, false, not, ◌&&◌, ◌||◌, List, [], ◌∷◌, ltb, ◌==◌, if◌then◌else◌,
}

-- The plain resource types: `GPIOResource<P>`, `SerialResource<P>`, `HardwareTimer<N>`, and a type of
-- the application.
pub data Resource : Type 0 where
  gpio : ℕ → Resource
  serial : ℕ → Resource
  timer : ℕ → Resource
  other : ℕ → Resource

-- A type in a claim: a resource, `range_claim<T, Begin, End>`, or `shared_use_claim<T, Id, UseParams>`
-- whose parameters are a type, here a number. An `int` is only compared,
-- and is represented by its distance from the least one.
pub data Claim : Type 0 where
  whole : Resource → Claim
  range : Resource → ℕ → ℕ → Claim
  shared : Resource → ℕ → ℕ → Claim

-- `std::is_same_v`
abbrev pub same_resource : Resource → Resource → Bool
same_resource (gpio a) (gpio b) = a == b
same_resource (serial a) (serial b) = a == b
same_resource (timer a) (timer b) = a == b
same_resource (other a) (other b) = a == b
same_resource _ _ = false

-- `range_claim::is_good`
abbrev pub is_good : ℕ → ℕ → Bool
is_good begin end = ltb begin end

-- `canonical` is the board's `CanonicalGPIO`.
module _ (canonical : ℕ → ℕ) where
  -- `has_conflict` of two plain resources.
  unfoldable pub resource_conflict : Resource → Resource → Bool
  resource_conflict (gpio a) (gpio b) = canonical a == canonical b
  resource_conflict a b = same_resource a b

  -- `has_conflict<T, U>`: its specialisations, and `std::is_same` for the rest.
  unfoldable pub has_conflict : Claim → Claim → Bool
  has_conflict (whole a) (whole b) = resource_conflict a b
  has_conflict (range t b1 e1) (range u b2 e2) =
      same_resource t u && ((ltb b2 e1 && ltb b1 e2) || not (is_good b1 e1) || not (is_good b2 e2))
  has_conflict (range t b e) (whole u) = same_resource t u
  has_conflict (whole t) (range u b e) = same_resource t u
  has_conflict (whole t) (shared u id p) = same_resource t u
  has_conflict (shared t id p) (whole u) = same_resource t u
  has_conflict (shared t id p) (shared u id' p') = same_resource t u && id == id' && not (p == p')
  has_conflict (range t b e) (shared u id p) = false
  has_conflict (shared t id p) (range u b e) = false

  -- `SelfParamsConflictTest<Res1, Res...>`: the first two resources, then the list without the second
  -- and the list without the first.
  unfoldable pub self_conflict_of : Claim → List Claim → Bool
  self_conflict_of c [] = false
  self_conflict_of c (d ∷ rest) =
      has_conflict c d || self_conflict_of c rest || self_conflict_of d rest

  unfoldable pub self_conflict : List Claim → Bool
  self_conflict [] = false
  self_conflict (c ∷ rest) = self_conflict_of c rest
