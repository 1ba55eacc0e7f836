-- ===== src/Interrupt/Binding.antt =====
-- src/grevir/interrupt/binding.hpp: binding plans and their validation. A `FixedArray` is a list; the
-- first `count` entries of a plan or a demand summary are the ones in use.
pub mod Valid
pub mod Inventory
use grevir_core.Common.{
  ℕ, zero, suc, ◌+◌, Bool, true, false, not, ◌&&◌, ◌||◌, List, [], ◌∷◌, ◌++◌, Option, none, some,
  length, take, ltb, ◌==◌, if◌then◌else◌,
}
use grevir_core.Interrupt.Catalog.{
  Text, EventIdentity, text_eq, identity_eq, identity_lt, valid_component,
}

pub record BindingRecord : Type 0 where
  pub event : EventIdentity
  pub owner : Text
  pub configuration : Text
  pub source : Text
  pub selector : Text
  pub entry : Text
  pub snapshot_policy : Text
  pub acknowledge_policy : Text
  pub dispatch_order : ℕ
  pub shared_source : Bool

pub record SelectedPlan : Type 0 where
  pub bindings : List BindingRecord
  pub count : ℕ
  pub allocation_ok : Bool
  pub search_exhausted : Bool

-- The members of `DemandSummary` that the validation reads.
pub record DemandKeys : Type 0 where
  pub keys : List EventIdentity
  pub count : ℕ

pub data PlanError : Type 0 where
  no_error allocation_failed exhausted count_mismatch : PlanError
  unknown_event duplicate_event missing_event invalid_source : PlanError
  source_owner_conflict entry_conflict ambiguous_selector : PlanError
  inconsistent_source_policy unstable_order unsupported_shared_source : PlanError

-- The loops that look for an event.
unfoldable pub has_event : EventIdentity → List EventIdentity → Bool
has_event e [] = false
has_event e (x ∷ xs) = identity_eq x e || has_event e xs

unfoldable pub is_bound : EventIdentity → List BindingRecord → Bool
is_bound e [] = false
is_bound e (b ∷ bs) = identity_eq e b.event || is_bound e bs

unfoldable pub valid_names : BindingRecord → Bool
valid_names b =
    valid_component b.owner
    && valid_component b.configuration
    && valid_component b.source
    && valid_component b.selector
    && valid_component b.entry
    && valid_component b.snapshot_policy
    && valid_component b.acknowledge_policy

-- The comparison with `plan.bindings[i - 1]`, the last of the earlier ones, if there is one.
unfoldable pub check_order : Option BindingRecord → BindingRecord → PlanError
check_order none b = no_error
check_order (some p) b =
    if identity_lt p.event b.event
    then no_error
    else if identity_eq p.event b.event
    then duplicate_event
    else unstable_order

-- The loop over the earlier bindings.
unfoldable pub check_earlier : List BindingRecord → BindingRecord → PlanError
check_earlier [] b = no_error
check_earlier (x ∷ xs) b =
    if text_eq x.source b.source
    then unsupported_shared_source
    else if text_eq x.entry b.entry
    then entry_conflict
    else check_earlier xs b

-- The next check is made where this one finds nothing.
abbrev pub or_else : PlanError → PlanError → PlanError
or_else no_error e = e
or_else e _ = e

abbrev pub last_of : List BindingRecord → Option BindingRecord
last_of [] = none
last_of (x ∷ []) = some x
last_of (x ∷ y ∷ xs) = last_of (y ∷ xs)

module _ (catalog demanded : List EventIdentity) where
  -- The body of the loop over the bindings.
  unfoldable pub check_binding : List BindingRecord → BindingRecord → PlanError
  check_binding earlier b =
      if not (has_event b.event catalog) || not (has_event b.event demanded)
      then unknown_event
      else if b.shared_source
      then unsupported_shared_source
      else if not (valid_names b)
      then invalid_source
      else or_else (check_order (last_of earlier) b) (check_earlier earlier b)

  unfoldable pub check_bindings : List BindingRecord → List BindingRecord → PlanError
  check_bindings earlier [] = no_error
  check_bindings earlier (b ∷ rest) =
      or_else (check_binding earlier b) (check_bindings (earlier ++ b ∷ []) rest)

-- The last loop: every demand is bound.
unfoldable pub check_demands : List EventIdentity → List BindingRecord → PlanError
check_demands [] bs = no_error
check_demands (e ∷ es) bs = if is_bound e bs then check_demands es bs else missing_event

unfoldable pub validate : List EventIdentity → DemandKeys → SelectedPlan → PlanError
validate catalog demands plan =
    if plan.search_exhausted
    then exhausted
    else if not plan.allocation_ok
    then allocation_failed
    else if not (plan.count == demands.count) || ltb (length plan.bindings) plan.count
    then count_mismatch
    else (let demanded = take demands.count demands.keys in
        let bound = take plan.count plan.bindings in
        or_else (check_bindings catalog demanded [] bound) (check_demands demanded bound))

-- `validate_inventory` takes the allocation problem as its backend states it.
pub record Request : Type 0 where
  pub event : EventIdentity
  pub pwm_required : Bool

pub record Candidate : Type 0 where
  pub request : EventIdentity
  pub reserved : Bool
  pub period_event : Bool
  pub pwm : Bool
  pub owner : Text
  pub configuration : Text
  pub source : Text
  pub selector : Text
  pub entry : Text
  pub snapshot_policy : Text
  pub acknowledge_policy : Text

pub record Problem : Type 0 where
  pub requests : List Request
  pub candidates : List Candidate

unfoldable pub matches : EventIdentity → List Request → ℕ
matches e [] = 0
matches e (r ∷ rs) = if identity_eq r.event e then suc (matches e rs) else matches e rs

unfoldable pub requested_once : List EventIdentity → List Request → Bool
requested_once [] rs = true
requested_once (e ∷ es) rs = if matches e rs == 1 then requested_once es rs else false

unfoldable pub owned : List Candidate → Bool
owned [] = true
owned (c ∷ cs) = if text_eq c.owner c.request.instance_name then owned cs else false

-- The loop over the requests, in which the last match decides.
unfoldable pub needs_pwm : EventIdentity → List Request → Bool → Bool
needs_pwm e [] before = before
needs_pwm e (r ∷ rs) before =
    needs_pwm e rs (if identity_eq r.event e then r.pwm_required else before)

unfoldable pub fits : Bool → BindingRecord → Candidate → Bool
fits pwm_required b c =
    identity_eq c.request b.event
    && not c.reserved
    && c.period_event
    && (not pwm_required || c.pwm)
    && text_eq c.owner b.owner
    && text_eq c.configuration b.configuration
    && text_eq c.source b.source
    && text_eq c.selector b.selector
    && text_eq c.entry b.entry
    && text_eq c.snapshot_policy b.snapshot_policy
    && text_eq c.acknowledge_policy b.acknowledge_policy

unfoldable pub is_offered : Bool → BindingRecord → List Candidate → Bool
is_offered pwm_required b [] = false
is_offered pwm_required b (c ∷ cs) = fits pwm_required b c || is_offered pwm_required b cs

unfoldable pub all_offered : List BindingRecord → Problem → Bool
all_offered [] problem = true
all_offered (b ∷ bs) problem =
    if is_offered (needs_pwm b.event problem.requests false) b problem.candidates
    then all_offered bs problem
    else false

unfoldable pub validate_inventory : List EventIdentity → Problem → SelectedPlan → Bool
validate_inventory catalog problem plan =
    if not (length problem.requests == length catalog)
    then false
    else if not (requested_once catalog problem.requests)
    then false
    else if not (owned problem.candidates)
    then false
    else if ltb (length plan.bindings) plan.count
    then false
    else all_offered (take plan.count plan.bindings) problem
