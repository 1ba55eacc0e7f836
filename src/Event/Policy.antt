-- ===== src/Event/Policy.antt =====
-- src/grevir/event/context_policy.hpp and queue_capacity.hpp: the name of a lock and a context policy as
-- one text, and the capacity that a board may declare. A failed static assertion is `none`.
pub mod Injective
use grevir_core.Common.{
  ℕ, zero, suc, ◌+◌, ◌/◌, ◌%◌, Bool, true, false, not, ◌&&◌, Option, none, some, List, [], ◌∷◌,
  ◌++◌, length, leb, ltb, if◌then◌else◌,
}

-- `digits`: the `while` loop on fuel, of which the value itself is enough.
unfoldable pub digits_loop : ℕ → ℕ → ℕ
digits_loop zero value = 1
digits_loop (suc fuel) value =
    let more = suc (digits_loop fuel (value / 10)) in if leb 10 value then more else 1

unfoldable pub digits : ℕ → ℕ
digits value = digits_loop value value

-- `append_number`: the places from the last one on.
unfoldable pub append_number : ℕ → ℕ → List ℕ
append_number value zero = []
append_number value (suc width) = append_number (value / 10) width ++ (b'0' + value % 10) ∷ []

unfoldable pub decimal : ℕ → List ℕ
decimal value = append_number value (digits value)

-- `ContextPolicyIdentity<Lock, Context>::length`
unfoldable pub identity_length : List ℕ → List ℕ → ℕ
identity_length lock context =
    1 + digits (length lock) + 1 + length lock + 2 + digits (length context) + 1 + length context

-- The bytes of `storage`, in the order in which they are written.
unfoldable pub storage : List ℕ → List ℕ → List ℕ
storage lock context =
    b'l'
    ∷ (decimal (length lock)
        ++ (b'_' ∷ (lock ++ (b'_' ∷ b'c' ∷ (decimal (length context) ++ (b'_' ∷ context))))))

-- `ContextPolicyIdentity<Lock, Context>::value`
unfoldable pub policy_identity : List ℕ → List ℕ → Option (List ℕ)
policy_identity lock context =
    if leb (identity_length lock context) 255 then some (storage lock context) else none

abbrev pub maximum_queue_capacity : ℕ
maximum_queue_capacity = 2048

-- `QueueCapacity<Board>::value`; `is_number` says whether the declared type is integral and not `bool`.
unfoldable pub queue_capacity : Bool → ℕ → Option ℕ
queue_capacity is_number declared =
    if is_number && (ltb 0 declared && leb declared maximum_queue_capacity)
    then some declared
    else none

-- `SelectedQueueCapacity<Board, selected>::value`
unfoldable pub selected_queue_capacity : Bool → Bool → ℕ → Option ℕ
selected_queue_capacity selected is_number declared =
    if selected then queue_capacity is_number declared else some 0
