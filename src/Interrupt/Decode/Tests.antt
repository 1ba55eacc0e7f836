-- ===== src/Interrupt/Decode/Tests.antt =====
-- A record of one demand and one binding, read back.
use grevir_core.Common.{ℕ, Bool, true, ◌&&◌, none, some, List, [], ◌∷◌, ◌≡◌, inr, refl, arith, ltb}
use grevir_core.Interrupt.Catalog.{Text, EventIdentity, text_eq}
use grevir_core.Interrupt.Probe.{
  Inputs, probe_record_size, demands_size, bindings_size, encoded_text_size, encode_probe_record,
}
use grevir_core.Interrupt.Decode.{read_byte, read_bytes, read_body, decode}
use grevir_core.Interrupt.Decode.RoundTrip.{IsEncodable, decode-encode}

abbrev ascii : Text → Bool
ascii [] = true
ascii (c ∷ cs) = ltb c 128 && ascii cs

abbrev key : EventIdentity
key = record { instance_name = b'a' ∷ []; request = b'r' ∷ []; kind = b'k' ∷ [] }

abbrev one_event : Inputs
one_event = record {
  backend = b'm' ∷ [];
  target = b't' ∷ [];
  board = b'd' ∷ [];
  compiler = b'g' ∷ [];
  application = b'a' ∷ [];
  capacity = 300;
  policy = [];
  demands =
      record {
        key = key;
        named = record { handler = b'e' ∷ []; context = b'i' ∷ []; delivery = b'd' ∷ [] };
      }
      ∷ [];
  selected =
      record {
        event = key;
        owner = b'a' ∷ [];
        configuration = b'f' ∷ [];
        source = b's' ∷ [];
        selector = b'1' ∷ [];
        entry = b'e' ∷ [];
        snapshot_policy = b'_' ∷ [];
        acknowledge_policy = b'_' ∷ [];
        dispatch_order = 513;
        shared_source = true;
      }
      ∷ [];
}

one_event-IsEncodable : IsEncodable ascii one_event
unfolding probe_record_size demands_size bindings_size encoded_text_size
one_event-IsEncodable = record {
  board = ground arith;
  policy = ground arith;
  capacity = omega arith;
  demands = ground arith;
  selected = ground arith;
  size = omega arith;
}

-- A record whose first byte is changed is refused.
decode-spoiled : decode ascii (b'X' ∷ b'I' ∷ b'R' ∷ b'Q' ∷ 4 ∷ 0 ∷ []) ≡ none
unfolding decode read_body read_bytes read_byte text_eq
decode-spoiled = refl

decode-encode_example :
    (out : List ℕ) × (encode_probe_record 64 one_event ≡ some out)
    × (decode ascii out ≡ some one_event)
decode-encode_example = decode-encode ascii one_event one_event-IsEncodable 64 (inr refl)
