-- ===== src/Interrupt/Host/Validate.antt =====
-- tools/grevir_irqgen/protocol.py: `_validate_plan`, and `decode` in full.
use grevir_core.Common.{
  ℕ, Bool, true, false, not, ◌&&◌, Option, none, some, List, [], ◌∷◌, length, ◌==◌, if◌then◌else◌,
}
use grevir_core.Interrupt.Catalog.{Text, text_eq, identity_eq}
use grevir_core.Interrupt.Binding.{BindingRecord}
use grevir_core.Interrupt.Probe.{Inputs, board_texts}
use grevir_core.Interrupt.Decode.{decode}
use grevir_core.Interrupt.Host.{
  GroupEvent, Group, HostPlan, group_with, append_event, groups_of, canonical_groups, identifiers,
  known_backend, valid_demands, demand_keys_of, binding_keys_of, keys_eq, keys_ordered,
  valid_context, valid_binding,
}

-- `entry in entries and entries[entry] != source`, with the newest assignment first.
unfoldable pub entry_taken : List (Text × Text) → BindingRecord → Bool
entry_taken [] b = false
entry_taken ((entry, source) ∷ entries) b =
    if text_eq entry b.entry then not (text_eq source b.source) else entry_taken entries b

-- The group's fields are those of the binding.
unfoldable pub same_group : Group → BindingRecord → Bool
same_group g b =
    text_eq g.owner b.owner
    && text_eq g.entry b.entry
    && text_eq g.snapshot_policy b.snapshot_policy
    && text_eq g.acknowledge_policy b.acknowledge_policy

abbrev pub is_empty : List GroupEvent → Bool
is_empty [] = true
is_empty (e ∷ es) = false

-- The binding joins the group of its source, which must have no events.
unfoldable pub join_group : List Group → BindingRecord → Option (List Group)
join_group [] b = some (append_event (group_with [] b) b ∷ [])
join_group (g ∷ gs) b =
    if text_eq g.source b.source
    then (if same_group g b && is_empty g.events then some (append_event g b ∷ gs) else none)
    else elim (join_group gs b) [ none ↦ none | some rest ↦ some (g ∷ rest) ]

-- The loop over the bindings.
unfoldable pub validate_bindings :
    List (Text × Text) → List Group → List BindingRecord → Option (List Group)
validate_bindings entries gs [] = some gs
validate_bindings entries gs (b ∷ bs) =
    if valid_binding b && not (entry_taken entries b)
    then (elim (join_group gs b) [
      | none ↦ none
      | some joined ↦ validate_bindings ((b.entry, b.source) ∷ entries) joined bs
    ])
    else none

-- `==` of groups.
unfoldable pub events_eq : List GroupEvent → List GroupEvent → Bool
events_eq [] [] = true
events_eq (a ∷ as_) (b ∷ bs) =
    identity_eq a.event b.event
    && text_eq a.selector b.selector
    && a.dispatch_order == b.dispatch_order
    && events_eq as_ bs
events_eq _ _ = false

unfoldable pub groups_eq : List Group → List Group → Bool
groups_eq [] [] = true
groups_eq (a ∷ as_) (b ∷ bs) =
    text_eq a.source b.source
    && text_eq a.owner b.owner
    && text_eq a.entry b.entry
    && text_eq a.snapshot_policy b.snapshot_policy
    && text_eq a.acknowledge_policy b.acknowledge_policy
    && events_eq a.events b.events
    && groups_eq as_ bs
groups_eq _ _ = false

-- The checks up to the loop over the bindings.
unfoldable pub valid_inputs : Inputs → Bool
valid_inputs r =
    known_backend r.backend
    && identifiers (board_texts r)
    && length r.demands == length r.selected
    && valid_demands r.demands
    && keys_ordered (demand_keys_of r.demands)
    && valid_context r.demands r.capacity r.policy

-- `fingerprint` is what the library's SHA-256 makes of the library's JSON of the plan.
module _ (fingerprint : Inputs → List Group → Text) where
  -- The checks behind the loop, with the groups that it leaves.
  unfoldable pub valid_groups : HostPlan → List Group → Bool
  valid_groups p gs =
      keys_eq (binding_keys_of p.inputs.selected) (demand_keys_of p.inputs.demands)
      && groups_eq p.source_groups (canonical_groups gs)
      && text_eq p.fingerprint (fingerprint p.inputs p.source_groups)

  -- `_validate_plan`
  unfoldable pub validate_plan : HostPlan → Option HostPlan
  validate_plan p =
      if valid_inputs p.inputs
      then (elim (validate_bindings [] [] p.inputs.selected) [
        | none ↦ none
        | some gs ↦ if valid_groups p gs then some p else none
      ])
      else none

  -- The plan that `decode` makes of what it read.
  unfoldable pub host_plan : Inputs → HostPlan
  host_plan r =
      let groups = canonical_groups (groups_of [] r.selected) in
      record { inputs = r; source_groups = groups; fingerprint = fingerprint r groups }

  -- `decode`
  unfoldable pub decode_plan : (Text → Bool) → List ℕ → Option HostPlan
  decode_plan is_utf8 bytes = elim (decode is_utf8 bytes) [
    | none ↦ none
    | some r ↦ validate_plan (host_plan r)
  ]
