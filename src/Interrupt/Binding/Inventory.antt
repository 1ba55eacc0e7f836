-- ===== src/Interrupt/Binding/Inventory.antt =====
-- What `validate_inventory` accepts, described without its loops.
use grevir_core.Common.{
  ◌≤◌, Bool, true, false, List, [], ◌∷◌, ◌≡◌, ◌↔◌, ◌⊎◌, arith, Bool-cases, inl, inr, length, take,
}
use grevir_core.Common.{All}
use grevir_core.Interrupt.Catalog.{EventIdentity, identity_eq}
use grevir_core.Interrupt.Binding.{
  BindingRecord, SelectedPlan, Request, Candidate, Problem, matches, requested_once, owned,
  needs_pwm, fits, is_offered, all_offered, validate_inventory,
}
use grevir_core.Interrupt.Binding.Valid.{text_eq_iff, identity_eq_iff}

-- No request is for the event, and exactly one is.
abbrev pub NoRequest : EventIdentity → List Request → Type 0
NoRequest e [] = Unit
NoRequest e (r ∷ rs) = ¬ (r.event ≡ e) × NoRequest e rs

abbrev pub OneRequest : EventIdentity → List Request → Type 0
OneRequest e [] = ⊥
OneRequest e (r ∷ rs) = ((r.event ≡ e) × NoRequest e rs) ⊎ (¬ (r.event ≡ e) × OneRequest e rs)

-- The last request for the event needs PWM.
abbrev pub NeedsPwm : EventIdentity → List Request → Type 0
NeedsPwm e [] = ⊥
NeedsPwm e (r ∷ rs) = ((r.event ≡ e) × (r.pwm_required ≡ true) × NoRequest e rs) ⊎ NeedsPwm e rs

-- The candidate is for the binding's event, may be used, and is what the binding names.
pub record Offers (requests : List Request) (b : BindingRecord) (c : Candidate) : Type 0 where
  pub event : c.request ≡ b.event
  pub free : c.reserved ≡ false
  pub periodic : c.period_event ≡ true
  pub capable : NeedsPwm b.event requests → c.pwm ≡ true
  pub owner : c.owner ≡ b.owner
  pub configuration : c.configuration ≡ b.configuration
  pub source : c.source ≡ b.source
  pub selector : c.selector ≡ b.selector
  pub entry : c.entry ≡ b.entry
  pub snapshot_policy : c.snapshot_policy ≡ b.snapshot_policy
  pub acknowledge_policy : c.acknowledge_policy ≡ b.acknowledge_policy

abbrev pub Offered : List Request → BindingRecord → List Candidate → Type 0
Offered requests b [] = ⊥
Offered requests b (c ∷ cs) = Offers requests b c ⊎ Offered requests b cs

pub record IsInventory (catalog : List EventIdentity) (problem : Problem) (plan : SelectedPlan)
    : Type 0 where
  pub sized : length problem.requests ≡ length catalog
  pub requested : All (λ e. OneRequest e problem.requests) catalog
  pub owned_by_instance : All (λ c. c.owner ≡ c.request.instance_name) problem.candidates
  pub room : plan.count ≤ length plan.bindings
  pub offered :
      All (λ b. Offered problem.requests b problem.candidates) (take plan.count plan.bindings)

matches_none : (e : EventIdentity) (rs : List Request) → (matches e rs ≡ 0) ↔ NoRequest e rs
unfolding matches
matches_none e [] = ground arith
matches_none e (r ∷ rs) = ground (arith, identity_eq_iff r.event e, matches_none e rs)

matches_one : (e : EventIdentity) (rs : List Request) → (matches e rs ≡ 1) ↔ OneRequest e rs
unfolding matches
matches_one e [] = ground arith
matches_one e (r ∷ rs) =
    ground (arith, identity_eq_iff r.event e, matches_none e rs, matches_one e rs)

requested_once_iff :
    (es : List EventIdentity) (rs : List Request)
    → (requested_once es rs ≡ true) ↔ All (λ e. OneRequest e rs) es
unfolding requested_once
requested_once_iff [] rs = ground arith
requested_once_iff (e ∷ es) rs = ground (arith, matches_one e rs, requested_once_iff es rs)

owned_iff :
    (cs : List Candidate) → (owned cs ≡ true) ↔ All (λ c. c.owner ≡ c.request.instance_name) cs
unfolding owned
owned_iff [] = ground arith
owned_iff (c ∷ cs) = ground (arith, text_eq_iff c.owner c.request.instance_name, owned_iff cs)

needs_pwm_from :
    (e : EventIdentity) (rs : List Request) (before : Bool)
    → (needs_pwm e rs before ≡ true) ↔ (NeedsPwm e rs ⊎ (NoRequest e rs × (before ≡ true)))
unfolding needs_pwm
needs_pwm_from e [] before = ground arith
needs_pwm_from e (r ∷ rs) before = elim (Bool-cases (identity_eq r.event e)) [
  | inl q ↦ rw q (ground (arith, identity_eq_iff r.event e, needs_pwm_from e rs r.pwm_required))
  | inr q ↦ rw q (ground (arith, identity_eq_iff r.event e, needs_pwm_from e rs before))
]

needs_pwm_iff :
    (e : EventIdentity) (rs : List Request) → (needs_pwm e rs false ≡ true) ↔ NeedsPwm e rs
needs_pwm_iff e rs = ground (arith, needs_pwm_from e rs false)

fits_iff :
    (rs : List Request) (b : BindingRecord) (c : Candidate)
    → (fits (needs_pwm b.event rs false) b c ≡ true) ↔ Offers rs b c
unfolding fits
fits_iff rs b c = ground (
  arith,
  needs_pwm_iff b.event rs,
  identity_eq_iff c.request b.event,
  text_eq_iff c.owner b.owner,
  text_eq_iff c.configuration b.configuration,
  text_eq_iff c.source b.source,
  text_eq_iff c.selector b.selector,
  text_eq_iff c.entry b.entry,
  text_eq_iff c.snapshot_policy b.snapshot_policy,
  text_eq_iff c.acknowledge_policy b.acknowledge_policy,
)

is_offered_iff :
    (rs : List Request) (b : BindingRecord) (cs : List Candidate)
    → (is_offered (needs_pwm b.event rs false) b cs ≡ true) ↔ Offered rs b cs
unfolding is_offered
is_offered_iff rs b [] = ground arith
is_offered_iff rs b (c ∷ cs) = ground (arith, fits_iff rs b c, is_offered_iff rs b cs)

all_offered_iff :
    (bs : List BindingRecord) (problem : Problem)
    → (all_offered bs problem ≡ true) ↔ All (λ b. Offered problem.requests b problem.candidates) bs
unfolding all_offered
all_offered_iff [] problem = ground arith
all_offered_iff (b ∷ bs) problem =
    ground (arith, is_offered_iff problem.requests b problem.candidates, all_offered_iff bs problem)

-- `validate_inventory` accepts exactly the plans of `IsInventory`: as many requests as catalog events
-- and exactly one for each of these, every candidate owned by the instance that it is for, and every
-- binding in use offered by an unreserved candidate that has a period event, can do PWM if the last
-- request for the event needs it, and agrees with the binding in the event and in every name.
pub validate_inventory_iff :
    (catalog : List EventIdentity) (problem : Problem) (plan : SelectedPlan)
    → (validate_inventory catalog problem plan ≡ true) ↔ IsInventory catalog problem plan
unfolding validate_inventory
validate_inventory_iff catalog problem plan = ground (
  arith,
  requested_once_iff catalog problem.requests,
  owned_iff problem.candidates,
  all_offered_iff (take plan.count plan.bindings) problem,
)
