-- ===== src/Interrupt/Samples.antt =====
-- Events, bindings and candidates whose names end in one character.
use grevir_core.Common.{ℕ, true, false, [], ◌∷◌}
use grevir_core.Interrupt.Catalog.{EventIdentity}
use grevir_core.Interrupt.Binding.{BindingRecord, Candidate}

abbrev pub event_of : ℕ → EventIdentity
event_of c = record { instance_name = c ∷ []; request = b'r' ∷ []; kind = b'k' ∷ [] }

abbrev pub binding_of : ℕ → BindingRecord
binding_of c = record {
  event = event_of c;
  owner = c ∷ [];
  configuration = b'f' ∷ [];
  source = b's' ∷ c ∷ [];
  selector = b'1' ∷ [];
  entry = b'e' ∷ c ∷ [];
  snapshot_policy = b'_' ∷ [];
  acknowledge_policy = b'_' ∷ [];
  dispatch_order = 0;
  shared_source = false;
}

abbrev pub candidate_of : ℕ → Candidate
candidate_of c = record {
  request = event_of c;
  reserved = false;
  period_event = true;
  pwm = false;
  owner = c ∷ [];
  configuration = b'f' ∷ [];
  source = b's' ∷ c ∷ [];
  selector = b'1' ∷ [];
  entry = b'e' ∷ c ∷ [];
  snapshot_policy = b'_' ∷ [];
  acknowledge_policy = b'_' ∷ [];
}
