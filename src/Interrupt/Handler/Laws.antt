-- ===== src/Interrupt/Handler/Laws.antt =====
-- What the interrupt of an event runs.
use grevir_core.Common.{ℕ, Bool, true, false, none, some, ==_iff, ◌≡◌, ◌≢◌, ◌↔◌, refl, arith}
use grevir_core.Event.Route.{Route}
use grevir_core.Interrupt.Binding.Valid.{text_eq_iff}
use grevir_core.Interrupt.Handler.{
  Declared, is_direct, is_deferred, HandlerNames, names, valid_choice, Runs, on_interrupt, on_event,
  post_from_isr, run_deferred, dispatch_bound_interrupt, binding_gate, raw_choice,
}

-- What an event's declarations ask for, by themselves.
abbrev pub Wants : Declared → Runs → Type 0
Wants d on_interrupt = (d.raw ≡ true) × (d.event ≡ false)
Wants d on_event = (d.raw ≡ false) × (d.event ≡ true) × (is_direct d.route ≡ true)
Wants d post_from_isr = (d.raw ≡ false) × (d.event ≡ true) × (is_deferred d.route ≡ true)

never_both : (r : Route) → is_direct r ≡ true → is_deferred r ≡ false
unfolding is_direct is_deferred
never_both r d = ground (arith, d)

-- On a board with a queue, the interrupt of an event runs a handler exactly when the generated header
-- records the names that the event's declarations give, and these ask for that handler: the raw one
-- alone, or the event's own, run at once on a direct route and posted on a deferred one.
pub dispatch_bound_interrupt_iff :
    (bound : HandlerNames) (d : Declared) (r : Runs)
    → (dispatch_bound_interrupt true bound d ≡ some r) ↔ ((names d ≡ bound) × Wants d r)
unfolding dispatch_bound_interrupt valid_choice run_deferred
dispatch_bound_interrupt_iff bound d r = ground (
  arith,
  text_eq_iff (names d).handler bound.handler,
  text_eq_iff (names d).context bound.context,
  text_eq_iff (names d).delivery bound.delivery,
  never_both d.route,
)

-- An event that the generated header binds, as that very event, has the raw handler in the firmware that
-- the probe saw; an event that it does not bind has none; and a key bound to another event ends the
-- compilation.
raw_choice_builds :
    (event : ℕ) (defined : Bool)
    → ((id : ℕ)
        → raw_choice false (some (event, id)) event defined
          ≡ raw_choice true (some (event, id)) event defined)
      × (raw_choice false none event defined ≡ some false)
      × ((e id : ℕ) → event ≢ e → raw_choice false (some (e, id)) event defined ≡ none)
unfolding raw_choice binding_gate
raw_choice_builds event defined =
    (λ id. ground (arith, ==_iff event event), refl, λ e id n. ground (arith, ==_iff event e, n))
