-- ===== src/Interrupt/Sort/Sorted.antt =====
-- The sort orders the rows and keeps them all.
use grevir_core.Common.{
  ℕ, zero, suc, ◌+◌, ◌≤◌, Bool, true, false, List, [], ◌∷◌, ◌≡◌, refl, ap, ◌∙◌, arith, length, All,
  Bool-cases, if◌then◌else◌, inl, inr,
}
use grevir_core.Interrupt.Sort.{exchange, sort_rounds, sort}

-- No row is less than one before it.
abbrev pub IsSorted : {A : Type 0} → (A → A → Bool) → List A → Type 0
IsSorted less [] = Unit {0}
IsSorted less (x ∷ xs) = All (λ y. less y x ≡ false) xs × IsSorted less xs

-- What a sort asks of `<`.
pub record IsOrder {A : Type 0} (less : A → A → Bool) : Type 0 where
  pub asymm : (a b : A) → less a b ≡ true → less b a ≡ false
  pub trans : (a b c : A) → less b a ≡ false → less c b ≡ false → less c a ≡ false

module _ {A : Type 0} (p : A → Bool) where
  abbrev pub weight : A → ℕ
  weight a = if p a then 1 else 0

  -- How many rows pass a test.
  abbrev pub tally : List A → ℕ
  tally [] = 0
  tally (x ∷ xs) = weight x + tally xs

  tally_either :
      (b : Bool) (x y : A) (n : ℕ)
      → weight (if b then x else y) + (weight (if b then y else x) + n) ≡ weight x + (weight y + n)
  tally_either true x y n = refl
  tally_either false x y n = omega arith

  module _ (less : A → A → Bool) where
    tally-exchange :
        (x : A) (ys : List A)
        → tally ((exchange less x ys).0 ∷ (exchange less x ys).1) ≡ tally (x ∷ ys)
    unfolding exchange
    tally-exchange x [] = refl
    tally-exchange x (y ∷ ys) =
        let before = less y x in
        let step = tally-exchange (if before then y else x) ys in
        let both = tally_either before x y (tally ys) in omega arith

    tally-sort_rounds : (n : ℕ) (xs : List A) → tally (sort_rounds less n xs) ≡ tally xs
    unfolding sort_rounds
    tally-sort_rounds zero xs = refl
    tally-sort_rounds (suc n) [] = refl
    tally-sort_rounds (suc n) (x ∷ xs) =
        let step = exchange less x xs in
        ap (λ t. weight step.0 + t) (tally-sort_rounds n step.1) ∙ tally-exchange x xs

    -- Every test passes on as many rows after the sort as before.
    pub tally-sort : (xs : List A) → tally (sort less xs) ≡ tally xs
    unfolding sort
    tally-sort xs = tally-sort_rounds (length xs) xs

module _ {A : Type 0} (less : A → A → Bool) (o : IsOrder less) where
  -- `a` is not above `b`.
  abbrev Le : A → A → Type 0
  Le a b = less b a ≡ false

  Le_refl : (a : A) → Le a a
  Le_refl a = elim (Bool-cases (less a a)) [ inl e ↦ o.asymm a a e | inr e ↦ e ]

  All-Le : (a b : A) (ys : List A) → Le a b → All (Le b) ys → All (Le a) ys
  All-Le a b [] h hs = tt
  All-Le a b (y ∷ ys) h (k, ks) = (o.trans a b y h k, All-Le a b ys h ks)

  -- The smaller of two, which the exchange keeps.
  smaller :
      (x y : A)
      → let before = less y x in
        Le (if before then y else x) (if before then x else y) × Le (if before then y else x) x
  smaller x y = elim (Bool-cases (less y x)) [
    | inl e ↦ rw e (o.asymm y x e, o.asymm y x e)
    | inr e ↦ rw e (e, Le_refl x)
  ]

  -- The row that comes first is not above any other.
  exchange_least :
      (x : A) (ys : List A)
      → Le (exchange less x ys).0 x × All (Le (exchange less x ys).0) (exchange less x ys).1
  unfolding exchange
  exchange_least x [] = (Le_refl x, tt)
  exchange_least x (y ∷ ys) =
      let before = less y x in
      let least = exchange_least (if before then y else x) ys in
      let first = (exchange less (if before then y else x) ys).0 in
      let two = smaller x y in
      (
        o.trans first (if before then y else x) x least.0 two.1,
        (o.trans first (if before then y else x) (if before then x else y) least.0 two.0, least.1),
      )

  length-exchange : (x : A) (ys : List A) → length (exchange less x ys).1 ≡ length ys
  unfolding exchange
  length-exchange x [] = refl
  length-exchange x (y ∷ ys) = ap suc (length-exchange (if less y x then y else x) ys)

  exchange_keeps :
      (P : A → Type 0) (x : A) (ys : List A)
      → P x
      → All P ys
      → P (exchange less x ys).0 × All P (exchange less x ys).1
  unfolding exchange
  exchange_keeps P x [] h hs = (h, tt)
  exchange_keeps P x (y ∷ ys) h (k, ks) = elim (Bool-cases (less y x)) [
    | inl e ↦ rw e (let rest = exchange_keeps P y ys k ks in (rest.0, (h, rest.1)))
    | inr e ↦ rw e (let rest = exchange_keeps P x ys h ks in (rest.0, (k, rest.1)))
  ]

  sort_rounds_keeps :
      (P : A → Type 0) (n : ℕ) (xs : List A) → All P xs → All P (sort_rounds less n xs)
  unfolding sort_rounds
  sort_rounds_keeps P zero xs h = h
  sort_rounds_keeps P (suc n) [] h = tt
  sort_rounds_keeps P (suc n) (x ∷ xs) (h, hs) =
      let kept = exchange_keeps P x xs h hs in
      (kept.0, sort_rounds_keeps P n (exchange less x xs).1 kept.1)

  sort_rounds-IsSorted :
      (n : ℕ) (xs : List A) → length xs ≤ n → IsSorted less (sort_rounds less n xs)
  unfolding sort_rounds
  sort_rounds-IsSorted zero [] h = tt
  sort_rounds-IsSorted zero (x ∷ xs) h = elim h [ ]
  sort_rounds-IsSorted (suc n) [] h = tt
  sort_rounds-IsSorted (suc n) (x ∷ xs) h = (
    sort_rounds_keeps (Le (exchange less x xs).0) n (exchange less x xs).1 (exchange_least x xs).1,
    sort_rounds-IsSorted n (exchange less x xs).1 (omega (arith, length-exchange x xs)),
  )

  pub sort_keeps : (P : A → Type 0) (xs : List A) → All P xs → All P (sort less xs)
  unfolding sort
  sort_keeps P xs h = sort_rounds_keeps P (length xs) xs h

  pub sort-IsSorted : (xs : List A) → IsSorted less (sort less xs)
  unfolding sort
  sort-IsSorted xs = sort_rounds-IsSorted (length xs) xs (omega arith)
