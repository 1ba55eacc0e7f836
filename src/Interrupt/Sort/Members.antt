-- ===== src/Interrupt/Sort/Members.antt =====
-- The sort keeps every row.
use grevir_core.Common.{
  ℕ, zero, suc, Bool, true, false, List, [], ◌∷◌, inl, inr, length, Among, if◌then◌else◌,
}
use grevir_core.Interrupt.Sort.{exchange, sort_rounds, sort}

module _ {A : Type 0} (less : A → A → Bool) where
  exchanged :
      (before : Bool) (a x y : A) (rest : List A)
      → Among a (x ∷ y ∷ rest)
      → Among a ((if before then y else x) ∷ (if before then x else y) ∷ rest)
  exchanged false a x y rest m = m
  exchanged true a x y rest (inl e) = inr (inl e)
  exchanged true a x y rest (inr (inl e)) = inl e
  exchanged true a x y rest (inr (inr m)) = inr (inr m)

  -- One more row, behind the first one.
  inserted : (a y : A) (p : A × List A) → Among a (p.0 ∷ p.1) → Among a (p.0 ∷ y ∷ p.1)
  inserted a y p (inl e) = inl e
  inserted a y p (inr m) = inr (inr m)

  exchange-Among :
      (a x : A) (ys : List A)
      → Among a (x ∷ ys)
      → let step = exchange less x ys in Among a (step.0 ∷ step.1)
  unfolding exchange
  exchange-Among a x [] m = m
  exchange-Among a x (y ∷ ys) m =
      let before = less y x in
      let first = if before then y else x in
      let second = if before then x else y in
      elim (exchanged before a x y ys m) [
        | inl e ↦ inserted a second (exchange less first ys) (exchange-Among a first ys (inl e))
        | inr n ↦ elim n [
          | inl e ↦ inr (inl e)
          | inr k ↦ inserted a second (exchange less first ys) (exchange-Among a first ys (inr k))
        ]
      ]

  sort_rounds-Among : (n : ℕ) (a : A) (xs : List A) → Among a xs → Among a (sort_rounds less n xs)
  unfolding sort_rounds
  sort_rounds-Among zero a xs m = m
  sort_rounds-Among (suc n) a [] m = m
  sort_rounds-Among (suc n) a (x ∷ xs) m = elim (exchange-Among a x xs m) [
    | inl e ↦ inl e
    | inr k ↦ inr (sort_rounds-Among n a (exchange less x xs).1 k)
  ]

  pub sort-Among : (a : A) (xs : List A) → Among a xs → Among a (sort less xs)
  unfolding sort
  sort-Among a xs m = sort_rounds-Among (length xs) a xs m
