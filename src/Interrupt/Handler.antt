-- ===== src/Interrupt/Handler.antt =====
-- src/grevir/interrupt/handler.hpp: which handler an event has, and what its interrupt runs. A failed
-- static assertion is `none`: there is no program.
pub mod Laws
use grevir_core.Common.{
  ℕ, Bool, true, false, not, ◌&&◌, ◌||◌, List, [], ◌∷◌, Option, none, some, ◌==◌, if◌then◌else◌,
}
use grevir_core.Event.Route.{
  Context, main_loop, isr_level, Delivery, elide, stream, direct, Route, is_elide,
}
use grevir_core.Interrupt.Catalog.{Text, text_eq}

-- What the program declares for an event: whether `on_interrupt<Event>` and `on_event<Event>` exist,
-- and `RouteFor<Event>`.
pub record Declared : Type 0 where
  pub raw : Bool
  pub event : Bool
  pub route : Route

unfoldable pub is_direct : Route → Bool
is_direct r = elim (r.context) [
  | isr_level ↦ elim (r.delivery) [ direct ↦ true | _ ↦ false ]
  | _ ↦ false
]

unfoldable pub is_deferred : Route → Bool
is_deferred r = elim (r.context) [
  | main_loop ↦ elim (r.delivery) [ elide ↦ true | stream ↦ true | _ ↦ false ]
  | _ ↦ false
]

-- `BindingGate<Event>::id`: 0 in the probe's build; in the firmware's, `bound` is the event that the
-- generated header binds to the key, with its number.
unfoldable pub binding_gate : Bool → Option (ℕ × ℕ) → ℕ → Option ℕ
binding_gate true bound event = some 0
binding_gate false none event = none
binding_gate false (some (e, id)) event = if event == e then some id else none

-- `HandlerChoice<Event>::raw`, if `on_interrupt<Event>` is defined or not.
unfoldable pub raw_choice : Bool → Option (ℕ × ℕ) → ℕ → Bool → Option Bool
raw_choice true bound event defined = some defined
raw_choice false none event defined = some false
raw_choice false (some b) event defined = elim (binding_gate false (some b) event) [
  | none ↦ none
  | some id ↦ some defined
]

-- The three names that a plan records for an event.
pub record HandlerNames : Type 0 where
  pub handler : Text
  pub context : Text
  pub delivery : Text

abbrev pub raw_text : Text
raw_text = b'r' ∷ b'a' ∷ b'w' ∷ []

abbrev pub event_text : Text
event_text = b'e' ∷ b'v' ∷ b'e' ∷ b'n' ∷ b't' ∷ []

abbrev pub isr_text : Text
isr_text = b'i' ∷ b's' ∷ b'r' ∷ []

abbrev pub main_loop_text : Text
main_loop_text = b'm' ∷ b'a' ∷ b'i' ∷ b'n' ∷ b'_' ∷ b'l' ∷ b'o' ∷ b'o' ∷ b'p' ∷ []

abbrev pub direct_text : Text
direct_text = b'd' ∷ b'i' ∷ b'r' ∷ b'e' ∷ b'c' ∷ b't' ∷ []

abbrev pub elide_text : Text
elide_text = b'e' ∷ b'l' ∷ b'i' ∷ b'd' ∷ b'e' ∷ []

abbrev pub stream_text : Text
stream_text = b's' ∷ b't' ∷ b'r' ∷ b'e' ∷ b'a' ∷ b'm' ∷ []

-- `HandlerChoice<Event>::handler`, `context` and `delivery`.
unfoldable pub names : Declared → HandlerNames
names d = record {
  handler = if d.raw then raw_text else event_text;
  context = if d.raw || is_direct d.route then isr_text else main_loop_text;
  delivery =
      if d.raw || is_direct d.route
      then direct_text
      else if is_elide (d.route.delivery)
      then elide_text
      else stream_text;
}

-- The assertions of `HandlerChoice`.
unfoldable pub valid_choice : Declared → Bool
valid_choice d = not (d.raw && d.event) && (not d.event || is_direct d.route || is_deferred d.route)

pub data Runs : Type 0 where
  on_interrupt : Runs
  on_event : Runs
  post_from_isr : Runs

-- The last branch of `dispatch_bound_interrupt`: `queue_members` says whether the board has what the
-- queue needs.
unfoldable pub run_deferred : Bool → Declared → Option Runs
run_deferred queue_members d =
    if not (is_deferred d.route) then none else if queue_members then some post_from_isr else none

-- `dispatch_bound_interrupt<Event>`; `bound` is what the generated header recorded.
unfoldable pub dispatch_bound_interrupt : Bool → HandlerNames → Declared → Option Runs
dispatch_bound_interrupt queue_members bound d =
    if not (valid_choice d)
    then none
    else if not (d.raw || d.event)
    then none
    else if not (text_eq (names d).handler bound.handler)
    then none
    else if not (text_eq (names d).context bound.context)
    then none
    else if not (text_eq (names d).delivery bound.delivery)
    then none
    else if d.raw
    then some on_interrupt
    else if d.event && is_direct d.route
    then some on_event
    else run_deferred queue_members d
