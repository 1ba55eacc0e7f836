-- ===== src/Interrupt/Tests.antt =====
-- The interrupt library on concrete inputs.
use grevir_core.Common.{
  ℕ, suc, true, false, List, [], ◌∷◌, ◌≡◌, ◌≢◌, ◌↔◌, ◌⊎◌, refl, arith, ◌+◌, ◌==◌,
}
use grevir_core.Event.Route.{elide}
use grevir_core.Event.Queue.{Spec, ContextPolicy, initial, prepare}
use grevir_core.Event.Dispatch.{Action, post_event}
use grevir_core.Interrupt.Start.{
  success, event_context_failed, Machine, fail, prepare_selected, setup, settle, install, configure,
  start_body, fresh_policy, BodyRun, returns, starts, default_result,
}
use grevir_core.Interrupt.Start.Laws.{
  Hook, masks, Answers, recording, stages, go_through, queue_prepared, nested_result, calls,
  start_trace, failed_start_stops, execute_once,
}
use grevir_core.Interrupt.Catalog.{
  EventIdentity, text_eq, text_compare, identity_eq, identity_compare, identity_lt, valid_character,
  all_valid, valid_component,
}
use grevir_core.Interrupt.Binding.{
  BindingRecord, SelectedPlan, DemandKeys, no_error, unstable_order, Problem, has_event, is_bound,
  valid_names, check_order, check_earlier, check_binding, check_bindings, check_demands, validate,
  validate_inventory,
}
use grevir_core.Interrupt.Binding.Valid.{IsPlan, validate_iff}
use grevir_core.Interrupt.Binding.Inventory.{IsInventory, validate_inventory_iff}
use grevir_core.Interrupt.Samples.{event_of, binding_of, candidate_of}

abbrev app : Spec
app = record { capacity = 2; index_mod = 256; delivery = λ e. elide }

abbrev host_task : ContextPolicy ℕ ℕ
host_task = record { bind = λ t o. t; is_owner = λ t o. t == o }

-- The registration fails and the cleanup succeeds; the modules' setup posts event 1.
abbrev unregistered : Answers
unregistered = record { configured = true; installed = false; settled = true; cleaned = true }

abbrev posting : List (Action ℕ)
posting = post_event 1 ∷ []

abbrev cold : Machine (List Hook) ℕ
cold = record { world = []; queue = initial app 0 }

unregistered_fails :
    (start_body app host_task (recording unregistered posting) true 7 cold).1.originating_failure
    ≢ success
unfolding start_body prepare_selected configure install settle fail setup prepare
unregistered_fails = ground arith

start_trace_example :
    let (m, r) = start_body app host_task (recording unregistered posting) true 7 cold in
    (m.world, r)
    ≡ go_through true
        (stages (queue_prepared app host_task true 7 (initial app 0)) unregistered)
        (masks ∷ [])
start_trace_example = start_trace app host_task true unregistered posting 7 (initial app 0)

failed_start_stops_example :
    let (m', r) = start_body app host_task (recording unregistered posting) true 7 cold in
    ((r.originating_failure ≡ event_context_failed) × (m'.queue ≡ initial app 0))
    ⊎ ((m'.queue.ready ≡ false) × (m'.queue.count ≡ 0))
failed_start_stops_example =
    failed_start_stops app host_task (recording unregistered posting) 7 cold unregistered_fails

-- A body that counts, and ends in what a nested call returned.
-- It counts itself, calls `execute` with itself or another body, and returns what that call returns.
abbrev ending : ℕ → BodyRun ℕ
ending n = returns (10 + n) default_result

abbrev counting : ℕ → BodyRun ℕ
counting n = starts (suc n) ending (λ m r. returns m r)

execute_once_example :
    calls (counting ∷ ending ∷ counting ∷ []) fresh_policy 0
    ≡ (1, nested_result ∷ nested_result ∷ nested_result ∷ [])
execute_once_example = execute_once counting (ending ∷ counting ∷ []) 0

abbrev catalog : List EventIdentity
catalog = event_of b'a' ∷ event_of b'b' ∷ []

abbrev both : DemandKeys
both = record { keys = catalog; count = 2 }

abbrev plan_of : List BindingRecord → SelectedPlan
plan_of bs = record { bindings = bs; count = 2; allocation_ok = true; search_exhausted = false }

abbrev good_plan : SelectedPlan
good_plan = plan_of (binding_of b'a' ∷ binding_of b'b' ∷ [])

abbrev problem : Problem
problem = record {
  requests =
      record { event = event_of b'b'; pwm_required = false }
      ∷ record { event = event_of b'a'; pwm_required = false }
      ∷ [];
  candidates = candidate_of b'b' ∷ candidate_of b'a' ∷ [];
}

validate-good_plan : validate catalog both good_plan ≡ no_error
unfolding validate check_bindings check_binding check_order check_earlier check_demands valid_names
    has_event is_bound identity_eq identity_lt identity_compare text_eq text_compare valid_component
    all_valid valid_character
validate-good_plan = refl

validate-bad_order :
    validate catalog both (plan_of (binding_of b'b' ∷ binding_of b'a' ∷ [])) ≡ unstable_order
unfolding validate check_bindings check_binding check_order check_earlier check_demands valid_names
    has_event is_bound identity_eq identity_lt identity_compare text_eq text_compare valid_component
    all_valid valid_character
validate-bad_order = refl

validate_iff_example : (validate catalog both good_plan ≡ no_error) ↔ IsPlan catalog both good_plan
validate_iff_example = validate_iff catalog both good_plan

validate_inventory_iff_example :
    (validate_inventory catalog problem good_plan ≡ true) ↔ IsInventory catalog problem good_plan
validate_inventory_iff_example = validate_inventory_iff catalog problem good_plan
