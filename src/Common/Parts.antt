-- ===== src/Common/Parts.antt =====
-- The first elements of a list and the others.
use Prim.Native.Nat.{ℕ, zero, suc, ◌-◌, ◌≤◌, min}
use mathlib.Core.Path.{◌≡◌, refl, ap, ap₂}
use mathlib.Core.List.{List, [], ◌∷◌, ◌++◌}
use native.Mathlib.Omega.{arith}
use grevir_core.Common.Lists.{length, take, drop}

module _ {ℓ} {A : Type ℓ} where
  pub take-drop : (n : ℕ) (xs : List A) → take n xs ++ drop n xs ≡ xs
  take-drop zero xs = refl
  take-drop (suc n) [] = refl
  take-drop (suc n) (x ∷ xs) = ap (λ ys. x ∷ ys) (take-drop n xs)

  pub length-take : (n : ℕ) (xs : List A) → length (take n xs) ≡ min n (length xs)
  length-take zero xs = omega arith
  length-take (suc n) [] = omega arith
  length-take (suc n) (x ∷ xs) = omega (arith, length-take n xs)

  pub length-drop : (n : ℕ) (xs : List A) → length (drop n xs) ≡ length xs - n
  length-drop zero xs = omega arith
  length-drop (suc n) [] = omega arith
  length-drop (suc n) (x ∷ xs) = omega (arith, length-drop n xs)

-- Of two parts of one list that start together, the longer one has the shorter one first.
pub longer_part :
    {A : Type 0} (xs ys more rest : List A)
    → ys ++ rest ≡ xs ++ more
    → length xs ≤ length ys
    → (others : List A) × (ys ≡ xs ++ others)
longer_part [] ys more rest e h = (ys, refl)
longer_part (x ∷ xs) [] more rest e h = absurd (omega arith)
longer_part (x ∷ xs) (y ∷ ys) more rest e h =
    let (others, tail) = longer_part xs ys more rest (cc e) (omega arith) in
    (others, ap₂ ◌∷◌ (cc e) tail)
