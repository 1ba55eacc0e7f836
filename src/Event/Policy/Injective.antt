-- ===== src/Event/Policy/Injective.antt =====
-- The one-field encoding tells the two names apart, and has the length that is computed for it.
use grevir_core.Common.{
  ℕ, zero, suc, ◌+◌, ◌-◌, ◌*◌, ◌/◌, ◌%◌, ◌≤◌, some, List, [], ◌∷◌, ◌++◌, ◌≡◌, ◌≢◌, refl, sym, ap,
  ◌∙◌, arith, length, length-append, All, leb, Bool-cases, inl, inr,
}
use grevir_core.Event.Policy.{
  digits_loop, digits, append_number, decimal, identity_length, storage, policy_identity,
}

-- The number that decimal digits stand for.
abbrev number_from : ℕ → List ℕ → ℕ
number_from n [] = n
number_from n (c ∷ cs) = number_from (n * 10 + (c - b'0')) cs

number_from-append :
    (n : ℕ) (cs : List ℕ) (c : ℕ)
    → number_from n (cs ++ c ∷ []) ≡ number_from n cs * 10 + (c - b'0')
number_from-append n [] c = refl
number_from-append n (d ∷ cs) c = number_from-append (n * 10 + (d - b'0')) cs c

number_from-append_number :
    (fuel value : ℕ)
    → value ≤ fuel
    → number_from 0 (append_number value (digits_loop fuel value)) ≡ value
unfolding append_number digits_loop
number_from-append_number zero value h = omega arith
number_from-append_number (suc fuel) value h = elim (Bool-cases (leb 10 value)) [
  | inl e ↦ rw e (
      let step =
        number_from-append 0 (append_number (value / 10) (digits_loop fuel (value / 10)))
          (b'0' + value % 10) in
      let rest = number_from-append_number fuel (value / 10) (omega arith) in omega arith)
  | inr e ↦ rw e (ground arith)
]

number-decimal : (value : ℕ) → number_from 0 (decimal value) ≡ value
unfolding decimal digits
number-decimal value = number_from-append_number value value (omega arith)

-- No underscore among the digits.
abbrev IsPlain : List ℕ → Type 0
IsPlain cs = All (λ c. c ≢ b'_') cs

IsPlain-append : (cs ds : List ℕ) → IsPlain cs → IsPlain ds → IsPlain (cs ++ ds)
IsPlain-append [] ds h k = k
IsPlain-append (c ∷ cs) ds (h, hs) k = (h, IsPlain-append cs ds hs k)

append_number-IsPlain : (value width : ℕ) → IsPlain (append_number value width)
unfolding append_number
append_number-IsPlain value zero = tt
append_number-IsPlain value (suc width) =
    IsPlain-append (append_number (value / 10) width) ((b'0' + value % 10) ∷ [])
      (append_number-IsPlain (value / 10) width) ((λ e. absurd (omega arith)), tt)

decimal-IsPlain : (value : ℕ) → IsPlain (decimal value)
unfolding decimal
decimal-IsPlain value = append_number-IsPlain value (digits value)

up_to_underscore :
    (xs xs' ys ys' : List ℕ)
    → IsPlain xs
    → IsPlain xs'
    → xs ++ (b'_' ∷ ys) ≡ xs' ++ (b'_' ∷ ys')
    → (xs ≡ xs') × (ys ≡ ys')
up_to_underscore [] [] ys ys' h h' e = (refl, cc)
up_to_underscore [] (x ∷ xs') ys ys' h (n, h') e = absurd (n (cc))
up_to_underscore (x ∷ xs) [] ys ys' (n, h) h' e = absurd (n (cc))
up_to_underscore (x ∷ xs) (x' ∷ xs') ys ys' (n, h) (n', h') e =
    let rest = up_to_underscore xs xs' ys ys' h h' (cc) in (cc, rest.1)

same_length :
    (xs xs' ys ys' : List ℕ)
    → length xs ≡ length xs'
    → xs ++ ys ≡ xs' ++ ys'
    → (xs ≡ xs') × (ys ≡ ys')
same_length [] [] ys ys' l e = (refl, e)
same_length [] (x ∷ xs') ys ys' l e = absurd (omega arith)
same_length (x ∷ xs) [] ys ys' l e = absurd (omega arith)
same_length (x ∷ xs) (x' ∷ xs') ys ys' l e =
    let rest = same_length xs xs' ys ys' (omega arith) (cc) in (cc, rest.1)

decimal_inj : (a b : ℕ) → decimal a ≡ decimal b → a ≡ b
decimal_inj a b e = sym (number-decimal a) ∙ ap (number_from 0) e ∙ number-decimal b

abbrev context_field : List ℕ → List ℕ
context_field context = b'_' ∷ b'c' ∷ (decimal (length context) ++ (b'_' ∷ context))

storage_inj :
    (lock context lock' context' : List ℕ)
    → storage lock context ≡ storage lock' context'
    → (lock ≡ lock') × (context ≡ context')
unfolding storage
storage_inj lock context lock' context' e =
    let first =
      up_to_underscore (decimal (length lock)) (decimal (length lock'))
        (lock ++ context_field context) (lock' ++ context_field context')
        (decimal-IsPlain (length lock)) (decimal-IsPlain (length lock')) (cc) in
    let names =
      same_length lock lock' (context_field context) (context_field context')
        (decimal_inj (length lock) (length lock') first.0) first.1 in
    let second =
      up_to_underscore (decimal (length context)) (decimal (length context')) context context'
        (decimal-IsPlain (length context)) (decimal-IsPlain (length context')) (cc) in
    (names.0, second.1)

length-append_number : (value width : ℕ) → length (append_number value width) ≡ width
unfolding append_number
length-append_number value zero = refl
length-append_number value (suc width) =
    let last = length-append (append_number (value / 10) width) ((b'0' + value % 10) ∷ []) in
    let rest = length-append_number (value / 10) width in omega arith

length-decimal : (value : ℕ) → length (decimal value) ≡ digits value
unfolding decimal
length-decimal value = length-append_number value (digits value)

length-storage :
    (lock context : List ℕ) → length (storage lock context) ≡ identity_length lock context
unfolding storage identity_length
length-storage lock context =
    let a = length-append (decimal (length lock)) (b'_' ∷ (lock ++ context_field context)) in
    let b = length-append lock (context_field context) in
    let c = length-append (decimal (length context)) (b'_' ∷ context) in
    omega (arith, length-decimal (length lock), length-decimal (length context))

-- Two pairs of a lock's and a context's name have the same policy identity only if they are the same
-- pair, whatever the names; and an identity fills its storage exactly and takes at most 255 bytes.
pub policy_identity_inj :
    (lock context lock' context' out : List ℕ)
    → policy_identity lock context ≡ some out
    → policy_identity lock' context' ≡ some out
    → (lock ≡ lock')
      × (context ≡ context')
      × (length out ≡ identity_length lock context)
      × (length out ≤ 255)
unfolding policy_identity
policy_identity_inj lock context lock' context' out h k =
    ground (arith, storage_inj lock context lock' context', length-storage lock context, h, k)
