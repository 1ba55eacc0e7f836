-- ===== src/Interrupt/Probe/Tests.antt =====
-- The handlers, the demand set and the probe record of a small application.
use grevir_core.Common.{
  ℕ, ◌+◌, ◌*◌, ◌≤◌, true, false, List, [], ◌∷◌, some, ◌≡◌, ◌↔◌, refl, arith, length, get_or, ◌==◌,
}
use grevir_core.Event.Route.{main_loop, isr_level, elide, direct}
use grevir_core.Interrupt.Catalog.{EventIdentity, identity_lt, identity_compare, text_compare}
use grevir_core.Interrupt.Handler.{Declared, names, on_event, dispatch_bound_interrupt}
use grevir_core.Interrupt.Handler.Laws.{Wants, dispatch_bound_interrupt_iff}
use grevir_core.Interrupt.Demand.{Demand, CatalogEvent, present, collect, demand_data, same_demands}
use grevir_core.Interrupt.Demand.Laws.{tally_declared, same_demands_iff, tally-demand_data}
use grevir_core.Interrupt.Sort.{exchange, sort_rounds, sort}
use grevir_core.Interrupt.Sort.Sorted.{tally}
use grevir_core.Interrupt.Probe.{
  Inputs, all_fitting, fitting, demands_fitting, bindings_fitting, probe_record_size, demands_size,
  bindings_size, encoded_text_size, encode_probe_record,
}
use grevir_core.Interrupt.Probe.Size.{encode_probe_record_total}

abbrev key_of : ℕ → EventIdentity
key_of c = record { instance_name = c ∷ []; request = b'r' ∷ []; kind = b'k' ∷ [] }

abbrev direct_event : Declared
direct_event = record {
  raw = false;
  event = true;
  route = record { context = isr_level; delivery = direct };
}

abbrev no_handler : Declared
no_handler = record {
  raw = false;
  event = false;
  route = record { context = main_loop; delivery = elide };
}

abbrev events : List CatalogEvent
events =
    record { key = key_of b'b'; declared = direct_event }
    ∷ record { key = key_of b'c'; declared = no_handler }
    ∷ record { key = key_of b'a'; declared = direct_event }
    ∷ []

abbrev row_of : ℕ → Demand
row_of c = record { key = key_of c; named = names direct_event }

demand_data-events : demand_data events ≡ row_of b'a' ∷ row_of b'b' ∷ []
unfolding demand_data collect present sort sort_rounds exchange identity_lt identity_compare
    text_compare
demand_data-events = refl

dispatch_bound_interrupt_iff_example :
    (dispatch_bound_interrupt true (names direct_event) direct_event ≡ some on_event)
    ↔ ((names direct_event ≡ names direct_event) × Wants direct_event on_event)
dispatch_bound_interrupt_iff_example =
    dispatch_bound_interrupt_iff (names direct_event) direct_event on_event

same_demands_iff_example :
    (same_demands (row_of b'a' ∷ row_of b'b' ∷ []) (row_of b'a' ∷ []) ≡ true)
    ↔ ((row_of b'a' ∷ row_of b'b' ∷ []) ≡ (row_of b'a' ∷ []))
same_demands_iff_example = same_demands_iff (row_of b'a' ∷ row_of b'b' ∷ []) (row_of b'a' ∷ [])

tally-demand_data_example :
    tally (λ d. length d.key.instance_name == 1) (demand_data events)
    ≡ tally_declared (λ d. length d.key.instance_name == 1) events
tally-demand_data_example = tally-demand_data (λ d. length d.key.instance_name == 1) events

abbrev inputs : Inputs
inputs = record {
  backend = b'm' ∷ [];
  target = b't' ∷ [];
  board = b'd' ∷ [];
  compiler = b'g' ∷ [];
  application = b'a' ∷ [];
  capacity = 2;
  policy = [];
  demands =
      record { key = key_of b'a'; named = record { handler = []; context = []; delivery = [] } }
      ∷ [];
  selected = [];
}

inputs_fit : all_fitting inputs ≡ true
unfolding all_fitting fitting demands_fitting bindings_fitting
inputs_fit = refl

inputs_small : probe_record_size inputs ≤ 65535
unfolding probe_record_size encoded_text_size demands_size bindings_size
inputs_small = omega arith

encode_probe_record_total_example :
    (out : List ℕ) × (encode_probe_record 32 inputs ≡ some out)
    × (length out ≡ probe_record_size inputs)
    × (get_or out 6 0 + 256 * get_or out 7 0 ≡ length out)
encode_probe_record_total_example = encode_probe_record_total 32 inputs inputs_fit inputs_small
