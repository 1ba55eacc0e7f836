-- ===== src/Interrupt/Deferred/Laws.antt =====
-- When an application has a queue, and which.
use grevir_core.Common.{
  ℕ, zero, suc, ◌+◌, ◌/◌, ◌%◌, ◌≤◌, ◌<◌, Bool, true, false, not, ◌&&◌, some, List, [], ◌∷◌, ◌++◌,
  ◌≡◌, ◌↔◌, ◌⊎◌, refl, arith, length,
}
use grevir_core.Interrupt.Catalog.{Text, text_eq, valid_component, all_valid, valid_character}
use grevir_core.Interrupt.Handler.{Declared, is_direct, names, main_loop_text}
use grevir_core.Interrupt.Demand.{Demand, CatalogEvent, present, demand_data}
use grevir_core.Interrupt.Sort.Sorted.{tally}
use grevir_core.Interrupt.Demand.Laws.{tally_declared, tally-demand_data}
use grevir_core.Event.Policy.{
  digits, append_number, decimal, identity_length, storage, policy_identity, queue_capacity,
  selected_queue_capacity,
}
use grevir_core.Interrupt.Deferred.{selected, QueueBoard, policy, deferred_plan}

-- Some event has a handler that is neither raw nor direct.
abbrev pub AnyDeferred : List CatalogEvent → Type 0
AnyDeferred [] = ⊥
AnyDeferred (e ∷ es) =
    ((present e ≡ true) × (e.declared.raw ≡ false) × (is_direct e.declared.route ≡ false))
    ⊎ AnyDeferred es

abbrev in_main_loop : Demand → Bool
in_main_loop d = text_eq d.named.context main_loop_text

selected_tally : (ds : List Demand) → (selected ds ≡ true) ↔ (0 < tally in_main_loop ds)
unfolding selected
selected_tally [] = ground arith
selected_tally (d ∷ ds) = ground (arith, selected_tally ds)

named_main_loop :
    (d : Declared)
    → text_eq (names d).context main_loop_text ≡ (not d.raw && not (is_direct d.route))
unfolding names text_eq
named_main_loop d = ground arith

tally_deferred : (es : List CatalogEvent) → (0 < tally_declared in_main_loop es) ↔ AnyDeferred es
tally_deferred [] = ground arith
tally_deferred (e ∷ es) = ground (arith, named_main_loop e.declared, tally_deferred es)

-- The queue is selected exactly if some event of the catalog has a handler that is neither raw nor
-- direct.
pub selected_iff : (es : List CatalogEvent) → (selected (demand_data es) ≡ true) ↔ AnyDeferred es
selected_iff es =
    ground
      (arith, selected_tally (demand_data es), tally-demand_data in_main_loop es, tally_deferred es)

all_valid-append :
    (xs ys : Text) → all_valid xs ≡ true → all_valid ys ≡ true → all_valid (xs ++ ys) ≡ true
unfolding all_valid
all_valid-append [] ys h k = k
all_valid-append (x ∷ xs) ys h k = ground (arith, all_valid-append xs ys, h)

valid_digit : (d : ℕ) → d < 10 → valid_character (b'0' + d) ≡ true
unfolding valid_character
valid_digit d h = ground arith

append_number-valid : (value width : ℕ) → all_valid (append_number value width) ≡ true
unfolding append_number all_valid
append_number-valid value zero = refl
append_number-valid value (suc width) =
    all_valid-append (append_number (value / 10) width) ((b'0' + value % 10) ∷ [])
      (append_number-valid (value / 10) width) (rw (valid_digit (value % 10) (omega arith)) refl)

all_valid_of : (t : Text) → valid_component t ≡ true → all_valid t ≡ true
unfolding valid_component
all_valid_of [] h = cc
all_valid_of (c ∷ cs) h = h

pub storage-valid :
    (lock context : Text)
    → valid_component lock ≡ true
    → valid_component context ≡ true
    → valid_component (storage lock context) ≡ true
unfolding valid_component storage decimal all_valid valid_character
storage-valid lock context h k =
    all_valid-append (append_number (length lock) (digits (length lock))) _
      (append_number-valid (length lock) (digits (length lock)))
      (all_valid-append lock _ (all_valid_of lock h) (
        all_valid-append (append_number (length context) (digits (length context))) _
          (append_number-valid (length context) (digits (length context)))
          (all_valid_of context k)))

-- What the board must offer for the queue to have this capacity and policy.
pub record IsOffered (b : QueueBoard) (capacity : ℕ) (p : Text) : Type 0 where
  pub available : b.available ≡ true
  pub is_number : b.is_number ≡ true
  pub positive : 0 < b.capacity
  pub bounded : b.capacity ≤ 2048
  pub lock : valid_component b.lock ≡ true
  pub context : valid_component b.context ≡ true
  pub short : identity_length b.lock b.context ≤ 255
  pub capacity_lem : capacity ≡ b.capacity
  pub policy_lem : p ≡ storage b.lock b.context

-- The plan's assertions hold, with this capacity and policy, exactly if no queue is selected and there
-- is neither, or one is, the board has what it needs, a capacity from 1 to 2048, and valid names of
-- which the identity takes at most 255 bytes; the last assertion, on the identity, then never fails.
pub deferred_plan_iff :
    (b : QueueBoard) (demands : List Demand) (capacity : ℕ) (p : Text)
    → (deferred_plan b demands ≡ some (capacity, p)) ↔ (
        ((selected demands ≡ false) × (capacity ≡ 0) × (p ≡ []))
        ⊎ ((selected demands ≡ true) × IsOffered b capacity p))
unfolding deferred_plan policy policy_identity selected_queue_capacity queue_capacity
deferred_plan_iff b demands capacity p = ground (arith, storage-valid b.lock b.context)
