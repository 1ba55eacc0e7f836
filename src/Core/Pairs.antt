-- ===== src/Core/Pairs.antt =====
-- Tests of the elements of a list, of its pairs, and of the pairs from two lists.
use grevir_core.Common.{Bool, false, ◌||◌, List, [], ◌∷◌, ◌++◌, ◌≡◌, refl, arith}

abbrev pub any : {A : Type 0} → (A → Bool) → List A → Bool
any p [] = false
any p (x ∷ xs) = p x || any p xs

-- Some element, and a later one.
abbrev pub any_pair : {A : Type 0} → (A → A → Bool) → List A → Bool
any_pair r [] = false
any_pair r (x ∷ xs) = any (r x) xs || any_pair r xs

-- Some element of the first list, and one of the second.
abbrev pub cross : {A B : Type 0} → (A → B → Bool) → List A → List B → Bool
cross r xs ys = any (λ x. any (r x) ys) xs

abbrev pub concat : {A : Type 0} → List (List A) → List A
concat [] = []
concat (xs ∷ xss) = xs ++ concat xss

pub any-append :
    {A : Type 0} (p : A → Bool) (xs ys : List A) → any p (xs ++ ys) ≡ (any p xs || any p ys)
any-append p [] ys = refl
any-append p (x ∷ xs) ys = ground (arith, any-append p xs ys)

pub any_ext :
    {A : Type 0} (p q : A → Bool) → ((x : A) → p x ≡ q x) → (xs : List A) → any p xs ≡ any q xs
any_ext p q h [] = refl
any_ext p q h (x ∷ xs) = ground (arith, h x, any_ext p q h xs)

any-or :
    {A : Type 0} (p q : A → Bool) (xs : List A) → any (λ x. p x || q x) xs ≡ (any p xs || any q xs)
any-or p q [] = refl
any-or p q (x ∷ xs) = ground (arith, any-or p q xs)

any_none : {A B : Type 0} (r : A → B → Bool) (xs : List A) → cross r xs [] ≡ false
any_none r [] = refl
any_none r (x ∷ xs) = any_none r xs

-- Pairs from two lists, from either side.
pub cross_flip :
    {A B : Type 0} (r : A → B → Bool) (xs : List A) (ys : List B)
    → cross r xs ys ≡ cross (λ y x. r x y) ys xs
cross_flip r [] ys = rw (any_none (λ y x. r x y) ys) refl
cross_flip r (x ∷ xs) ys =
    rw (any-or (λ y. r x y) (λ y. any (λ x. r x y) xs) ys, cross_flip r xs ys) refl

module _ {A : Type 0} (r : A → A → Bool) where
  pub cross-append_left :
      (xs ys zs : List A) → cross r (xs ++ ys) zs ≡ (cross r xs zs || cross r ys zs)
  cross-append_left xs ys zs = any-append (λ x. any (r x) zs) xs ys

  pub cross-append_right :
      (xs ys zs : List A) → cross r xs (ys ++ zs) ≡ (cross r xs ys || cross r xs zs)
  cross-append_right [] ys zs = refl
  cross-append_right (x ∷ xs) ys zs =
      ground (arith, any-append (r x) ys zs, cross-append_right xs ys zs)

  pub any_pair-append :
      (xs ys : List A) → any_pair r (xs ++ ys) ≡ (any_pair r xs || cross r xs ys || any_pair r ys)
  any_pair-append [] ys = refl
  any_pair-append (x ∷ xs) ys = ground (arith, any-append (r x) xs ys, any_pair-append xs ys)

  -- All claims of one list against those of many.
  pub cross-concat :
      (xs : List A) (yss : List (List A)) → cross r xs (concat yss) ≡ any (cross r xs) yss
  cross-concat xs [] = any_none r xs
  cross-concat xs (ys ∷ yss) =
      ground (arith, cross-append_right xs ys (concat yss), cross-concat xs yss)

  pub concat-cross :
      (xss yss : List (List A)) → cross r (concat xss) (concat yss) ≡ cross (cross r) xss yss
  concat-cross [] yss = refl
  concat-cross (xs ∷ xss) yss = ground (
    arith,
    cross-append_left xs (concat xss) (concat yss),
    cross-concat xs yss,
    concat-cross xss yss,
  )

  -- The pairs in lists put together.
  pub any_pair-concat :
      (xss : List (List A))
      → any_pair r (concat xss) ≡ (any_pair (cross r) xss || any (any_pair r) xss)
  any_pair-concat [] = refl
  any_pair-concat (xs ∷ xss) =
      ground (arith, any_pair-append xs (concat xss), cross-concat xs xss, any_pair-concat xss)

-- Where a test of two also passes on a test of one of them, and that is tested anyway, it adds nothing.
module _ {A : Type 0} (m c : A → A → Bool) (s : A → Bool)
    (absorbed : (x y : A) → (m x y || s x || s y) ≡ (c x y || s x || s y)) where
  any-absorbed :
      (x : A) (ys : List A) → (any (m x) ys || s x || any s ys) ≡ (any (c x) ys || s x || any s ys)
  any-absorbed x [] = refl
  any-absorbed x (y ∷ ys) = ground (arith, absorbed x y, any-absorbed x ys)

  pub cross-absorbed :
      (xs ys : List A)
      → (cross m xs ys || any s xs || any s ys) ≡ (cross c xs ys || any s xs || any s ys)
  cross-absorbed [] ys = refl
  cross-absorbed (x ∷ xs) ys = ground (arith, any-absorbed x ys, cross-absorbed xs ys)

  pub any_pair-absorbed : (xs : List A) → (any_pair m xs || any s xs) ≡ (any_pair c xs || any s xs)
  any_pair-absorbed [] = refl
  any_pair-absorbed (x ∷ xs) = ground (arith, any-absorbed x xs, any_pair-absorbed xs)
