-- ===== src/Interrupt/Host/Keys.antt =====
-- The host's comparison of lists of keys, and keys that ascend.
use grevir_core.Common.{
  ℕ, true, List, [], ◌∷◌, ◌≡◌, inl, inr, refl, sym, ap, subst, ◌∙◌, arith, Among, All, All-of,
  All-at, Bool-cases,
}
use grevir_core.Interrupt.Catalog.{
  Text, EventIdentity, identity_eq, identity_lt, valid_component, all_valid, valid_character,
}
use grevir_core.Interrupt.Binding.Valid.{identity_eq_iff}
use grevir_core.Interrupt.Sort.Sorted.{IsSorted}
use grevir_core.Interrupt.Sort.Fixed.{sort_fixed}
use grevir_core.Interrupt.Events.Laws.{IsAscending, identity_lt-IsOrder}
use grevir_core.Interrupt.Plan.Laws.{identity_lt_irrefl}
use grevir_core.Interrupt.Host.{
  keys_eq, without_key, key_set, keys_ordered, identifier_character, identifier_characters,
  identifier,
}

pub keys_eq_refl : (ks : List EventIdentity) → keys_eq ks ks ≡ true
unfolding keys_eq
keys_eq_refl [] = refl
keys_eq_refl (k ∷ ks) = ground (arith, identity_eq_iff k k, keys_eq_refl ks)

without_absent :
    (k : EventIdentity) (ks : List EventIdentity)
    → All (λ l. identity_lt k l ≡ true) ks
    → without_key k ks ≡ ks
unfolding without_key
without_absent k [] h = refl
without_absent k (l ∷ ks) (h, hs) = elim (Bool-cases (identity_eq k l)) [
  | inl e ↦ absurd (
      identity_lt_irrefl k
        (subst (λ x. identity_lt k x ≡ true) (sym ((identity_eq_iff k l).0 e)) h))
  | inr e ↦ rw e (ap (λ ls. l ∷ ls) (without_absent k ks hs))
]

key_set_ascending : (ks : List EventIdentity) → IsAscending ks → key_set ks ≡ ks
unfolding key_set
key_set_ascending [] h = refl
key_set_ascending (k ∷ ks) (h, hs) =
    rw (key_set_ascending ks hs) (ap (λ ls. k ∷ ls) (without_absent k ks h))

ascending-IsSorted : (ks : List EventIdentity) → IsAscending ks → IsSorted identity_lt ks
ascending-IsSorted [] h = tt
ascending-IsSorted (k ∷ ks) (h, hs) = (
  All-of _ ks (λ l m. identity_lt-IsOrder.asymm k l (All-at _ ks h l m)),
  ascending-IsSorted ks hs,
)

pub keys_ordered_ascending : (ks : List EventIdentity) → IsAscending ks → keys_ordered ks ≡ true
unfolding keys_ordered
keys_ordered_ascending ks h =
    rw (key_set_ascending ks h, sort_fixed identity_lt ks (ascending-IsSorted ks h))
      (keys_eq_refl ks)

-- Two lists that ascend and have the same keys are equal.
tail_in :
    (x : EventIdentity) (xs ys : List EventIdentity)
    → All (λ l. identity_lt x l ≡ true) xs
    → ((k : EventIdentity) → Among k (x ∷ xs) → Among k (x ∷ ys))
    → (k : EventIdentity) → Among k xs
    → Among k ys
tail_in x xs ys h inside k m = elim (inside k (inr m)) [
  | inr n ↦ n
  | inl e ↦
      absurd
        (identity_lt_irrefl x (subst (λ l. identity_lt x l ≡ true) (sym e) (All-at _ xs h k m)))
]

head_same :
    (x y : EventIdentity) (xs ys : List EventIdentity)
    → All (λ l. identity_lt x l ≡ true) xs
    → All (λ l. identity_lt y l ≡ true) ys
    → Among x (y ∷ ys)
    → Among y (x ∷ xs)
    → x ≡ y
head_same x y xs ys h k (inl e) n = sym e
head_same x y xs ys h k (inr m) (inl e) = e
head_same x y xs ys h k (inr m) (inr n) =
    let below = All-at _ xs h y n in
    let above = identity_lt-IsOrder.asymm y x (All-at _ ys k x m) in cc (below, above)

pub ascending_same :
    (xs ys : List EventIdentity)
    → IsAscending xs
    → IsAscending ys
    → ((k : EventIdentity) → Among k xs → Among k ys)
    → ((k : EventIdentity) → Among k ys → Among k xs)
    → xs ≡ ys
ascending_same [] [] h k to from = refl
ascending_same [] (y ∷ ys) h k to from = absurd (from y (inl refl))
ascending_same (x ∷ xs) [] h k to from = absurd (to x (inl refl))
ascending_same (x ∷ xs) (y ∷ ys) (h, hs) (k, ks) to from =
    let e = head_same x y xs ys h k (to x (inl refl)) (from y (inl refl)) in
    let to' = subst (λ z. (l : EventIdentity) → Among l (x ∷ xs) → Among l (z ∷ ys)) (sym e) to in
    let from' =
      subst (λ z. (l : EventIdentity) → Among l (z ∷ ys) → Among l (x ∷ xs)) (sym e) from in
    let k' = subst (λ z. All (λ l. identity_lt z l ≡ true) ys) (sym e) k in
    ap (λ z. z ∷ xs) e
    ∙ ap (λ zs. y ∷ zs)
        (ascending_same xs ys hs ks (tail_in x xs ys h to') (tail_in x ys xs k' from'))

-- The host's identifiers are the valid components.
same_character : (c : ℕ) → identifier_character c ≡ valid_character c
unfolding identifier_character valid_character
same_character c = ground arith

same_characters : (t : Text) → identifier_characters t ≡ all_valid t
unfolding identifier_characters all_valid
same_characters [] = refl
same_characters (c ∷ cs) = ground (arith, same_character c, same_characters cs)

pub identifier-valid_component : (t : Text) → identifier t ≡ valid_component t
unfolding identifier valid_component
identifier-valid_component [] = refl
identifier-valid_component (c ∷ cs) = same_characters (c ∷ cs)
