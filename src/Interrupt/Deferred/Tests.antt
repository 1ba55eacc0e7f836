-- ===== src/Interrupt/Deferred/Tests.antt =====
-- A board with a queue of two places, and applications with and without deferred events.
use grevir_core.Common.{ℕ, ◌≤◌, true, false, some, List, [], ◌∷◌, ◌≡◌, ◌↔◌, ◌⊎◌, refl, length}
use grevir_core.Event.Route.{main_loop, elide}
use grevir_core.Event.Policy.{
  policy_identity, storage, identity_length, decimal, append_number, digits, digits_loop,
  selected_queue_capacity, queue_capacity,
}
use grevir_core.Event.Policy.Injective.{policy_identity_inj}
use grevir_core.Interrupt.Catalog.{
  Text, EventIdentity, text_eq, valid_component, all_valid, valid_character,
}
use grevir_core.Interrupt.Handler.{Declared, names, is_direct}
use grevir_core.Interrupt.Demand.{Demand, CatalogEvent}
use grevir_core.Interrupt.Deferred.{selected, QueueBoard, policy, deferred_plan}
use grevir_core.Interrupt.Deferred.Laws.{IsOffered, deferred_plan_iff}

abbrev board : QueueBoard
board = record {
  available = true;
  is_number = true;
  capacity = 2;
  lock = b'l' ∷ b'_' ∷ [];
  context = b'c' ∷ [];
}

abbrev key : EventIdentity
key = record { instance_name = b'a' ∷ []; request = b'r' ∷ []; kind = b'k' ∷ [] }

abbrev deferred_event : Declared
deferred_event = record {
  raw = false;
  event = true;
  route = record { context = main_loop; delivery = elide };
}

abbrev events : List CatalogEvent
events = record { key = key; declared = deferred_event } ∷ []

abbrev demands : List Demand
demands = record { key = key; named = names deferred_event } ∷ []

-- "l2_l__c1_c"
abbrev identity_text : Text
identity_text = b'l' ∷ b'2' ∷ b'_' ∷ b'l' ∷ b'_' ∷ b'_' ∷ b'c' ∷ b'1' ∷ b'_' ∷ b'c' ∷ []

identity_of_board : policy_identity board.lock board.context ≡ some identity_text
unfolding policy_identity identity_length storage decimal append_number digits digits_loop
identity_of_board = refl

deferred_plan-board : deferred_plan board demands ≡ some (2, identity_text)
unfolding deferred_plan selected policy policy_identity identity_length storage decimal
    append_number digits digits_loop selected_queue_capacity queue_capacity text_eq names is_direct
    valid_component all_valid valid_character
deferred_plan-board = refl

deferred_plan-none : deferred_plan board [] ≡ some (0, [])
unfolding deferred_plan selected selected_queue_capacity
deferred_plan-none = refl

policy_identity_inj_example :
    (board.lock ≡ board.lock)
    × (board.context ≡ board.context)
    × (length identity_text ≡ identity_length board.lock board.context)
    × (length identity_text ≤ 255)
policy_identity_inj_example =
    policy_identity_inj board.lock board.context board.lock board.context identity_text
      identity_of_board identity_of_board

deferred_plan_iff_example : (deferred_plan board demands ≡ some (2, identity_text)) ↔ (
    ((selected demands ≡ false) × (◌≡◌ {A = ℕ} 2 0) × (identity_text ≡ []))
    ⊎ ((selected demands ≡ true) × IsOffered board 2 identity_text))
deferred_plan_iff_example = deferred_plan_iff board demands 2 identity_text
