-- ===== src/Interrupt/Host/Tests.antt =====
-- The record of two demands and two bindings, of a board with a queue of two places.
use grevir_core.Common.{ℕ, Bool, true, ◌&&◌, some, List, [], ◌∷◌, ◌≡◌, inr, refl, arith, ltb, take}
use grevir_core.Event.Policy.{
  policy_identity, storage, identity_length, decimal, append_number, digits, digits_loop,
  selected_queue_capacity, queue_capacity,
}
use grevir_core.Interrupt.Catalog.{Text, text_eq, valid_component, all_valid, valid_character}
use grevir_core.Interrupt.Handler.{names, is_direct}
use grevir_core.Interrupt.Deferred.{selected, QueueBoard, policy, deferred_plan}
use grevir_core.Interrupt.Plan.Samples.{
  two_descriptors, in_front, allocation, two_demands, binding_plan-two,
}
use grevir_core.Interrupt.Probe.{
  Inputs, probe_record_size, demands_size, bindings_size, encoded_text_size, encode_probe_record,
}
use grevir_core.Interrupt.Decode.RoundTrip.{IsEncodable}
use grevir_core.Interrupt.Host.{
  Group, known_backend, identifiers, identifier, identifier_characters, identifier_character,
}
use grevir_core.Interrupt.Host.Validate.{host_plan, decode_plan}
use grevir_core.Interrupt.Host.Accepts.{decode_plan-accepts}

abbrev seven_bits : Text → Bool
seven_bits [] = true
seven_bits (c ∷ cs) = ltb c 128 && seven_bits cs

abbrev queue_board : QueueBoard
queue_board = record {
  available = true;
  is_number = true;
  capacity = 2;
  lock = b'l' ∷ [];
  context = b'c' ∷ [];
}

abbrev two_events : Inputs
two_events = record {
  backend = b'm' ∷ b'o' ∷ b'c' ∷ b'k' ∷ [];
  target = b't' ∷ [];
  board = b'd' ∷ [];
  compiler = b'g' ∷ [];
  application = b'a' ∷ [];
  capacity = 2;
  policy = b'l' ∷ b'1' ∷ b'_' ∷ b'l' ∷ b'_' ∷ b'c' ∷ b'1' ∷ b'_' ∷ b'c' ∷ [];
  demands = two_demands;
  selected = take 2 allocation.plan.bindings;
}

deferred_plan-two : deferred_plan queue_board two_demands ≡ some (2, two_events.policy)
unfolding deferred_plan selected policy policy_identity identity_length storage decimal
    append_number digits digits_loop selected_queue_capacity queue_capacity text_eq names is_direct
    valid_component all_valid valid_character
deferred_plan-two = refl

two_events-IsEncodable : IsEncodable seven_bits two_events
unfolding names is_direct probe_record_size demands_size bindings_size encoded_text_size
two_events-IsEncodable = record {
  board = ground arith;
  policy = ground arith;
  capacity = omega arith;
  demands = ground arith;
  selected = ground arith;
  size = omega arith;
}

backend_known : known_backend two_events.backend ≡ true
unfolding known_backend text_eq
backend_known = refl

board_named :
    identifiers (
      two_events.backend ∷ two_events.target ∷ two_events.board ∷ two_events.compiler
      ∷ two_events.application ∷ [])
    ≡ true
unfolding identifiers identifier identifier_characters identifier_character
board_named = refl

-- Any function of the inputs and the groups.
abbrev application_and_owners : Inputs → List Group → Text
application_and_owners r [] = r.application
application_and_owners r (g ∷ gs) = g.owner

decode_plan-accepts_example :
    (out : List ℕ) × (encode_probe_record 64 two_events ≡ some out)
    × (decode_plan application_and_owners seven_bits out
        ≡ some (host_plan application_and_owners two_events))
decode_plan-accepts_example =
    decode_plan-accepts in_front two_descriptors allocation queue_board allocation.plan two_events
      binding_plan-two refl deferred_plan-two backend_known board_named seven_bits
      two_events-IsEncodable application_and_owners 64 (inr refl)
