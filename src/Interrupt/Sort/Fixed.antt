-- ===== src/Interrupt/Sort/Fixed.antt =====
-- A list in order is left as it is.
use grevir_core.Common.{ℕ, zero, suc, Bool, false, List, [], ◌∷◌, ◌≡◌, refl, ap, length, All}
use grevir_core.Interrupt.Sort.{exchange, sort_rounds, sort}
use grevir_core.Interrupt.Sort.Sorted.{IsSorted}

module _ {A : Type 0} (less : A → A → Bool) where
  exchange_least_first :
      (x : A) (ys : List A) → All (λ y. less y x ≡ false) ys → exchange less x ys ≡ (x, ys)
  unfolding exchange
  exchange_least_first x [] h = refl
  exchange_least_first x (y ∷ ys) (h, hs) = rw (h, exchange_least_first x ys hs) refl

  sort_rounds_fixed : (n : ℕ) (xs : List A) → IsSorted less xs → sort_rounds less n xs ≡ xs
  unfolding sort_rounds
  sort_rounds_fixed zero xs h = refl
  sort_rounds_fixed (suc n) [] h = refl
  sort_rounds_fixed (suc n) (x ∷ xs) (h, hs) =
      rw (exchange_least_first x xs h) (ap (λ ys. x ∷ ys) (sort_rounds_fixed n xs hs))

  pub sort_fixed : (xs : List A) → IsSorted less xs → sort less xs ≡ xs
  unfolding sort
  sort_fixed xs h = sort_rounds_fixed (length xs) xs h
