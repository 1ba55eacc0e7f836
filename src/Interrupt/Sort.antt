-- ===== src/Interrupt/Sort.antt =====
-- The exchange sort that catalog.hpp and demand.hpp both write out, on the rows that it orders.
pub mod Sorted
pub mod Members
pub mod Fixed
use grevir_core.Common.{ℕ, zero, suc, Bool, true, false, List, [], ◌∷◌, length, if◌then◌else◌}

-- `less y x` is `y < x` of the rows' keys.
module _ {A : Type 0} (less : A → A → Bool) where
  -- The inner loop: the row that ends in place `i`, and the rows behind it.
  unfoldable pub exchange : A → List A → A × List A
  exchange x [] = (x, [])
  exchange x (y ∷ ys) =
      let before = less y x in
      let step = exchange (if before then y else x) ys in
      (step.0, (if before then x else y) ∷ step.1)

  -- The outer loop, on the number of its rounds.
  unfoldable pub sort_rounds : ℕ → List A → List A
  sort_rounds zero xs = xs
  sort_rounds (suc n) [] = []
  sort_rounds (suc n) (x ∷ xs) = let step = exchange x xs in step.0 ∷ sort_rounds n step.1

  unfoldable pub sort : List A → List A
  sort xs = sort_rounds (length xs) xs
