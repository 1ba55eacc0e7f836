-- ===== src/Interrupt/Host.antt =====
-- tools/grevir_irqgen/protocol.py: the plan that the host tool makes of a probe record, and its
-- validation. `none` is the exception `PlanError`. The tests of JSON types have no counterpart, since the
-- model's fields are typed.
pub mod Validate
pub mod Groups
pub mod Keys
pub mod Demands
pub mod Bindings
pub mod Accepts
mod Tests
use Prim.Native.Nat.{compare}
use grevir_core.Common.{
  ℕ, Bool, true, false, not, ◌&&◌, ◌||◌, Option, none, some, List, [], ◌∷◌, ◌++◌, map, length, leb,
  ◌==◌, if◌then◌else◌,
}
use grevir_core.Interrupt.Catalog.{
  Text, EventIdentity, text_eq, text_compare, then_compare, identity_eq, identity_lt,
  identity_compare, is_lt,
}
use grevir_core.Interrupt.Sort.{sort}
use grevir_core.Interrupt.Binding.{BindingRecord}
use grevir_core.Interrupt.Handler.{
  HandlerNames, raw_text, event_text, isr_text, main_loop_text, direct_text, elide_text,
  stream_text,
}
use grevir_core.Interrupt.Demand.{Demand}
use grevir_core.Interrupt.Probe.{Inputs}
use grevir_core.Interrupt.Decode.{decode}

pub record GroupEvent : Type 0 where
  pub event : EventIdentity
  pub selector : Text
  pub dispatch_order : ℕ

pub record Group : Type 0 where
  pub source : Text
  pub owner : Text
  pub entry : Text
  pub snapshot_policy : Text
  pub acknowledge_policy : Text
  pub events : List GroupEvent

pub record HostPlan : Type 0 where
  pub inputs : Inputs
  pub source_groups : List Group
  pub fingerprint : Text

abbrev pub group_event : BindingRecord → GroupEvent
group_event b = record { event = b.event; selector = b.selector; dispatch_order = b.dispatch_order }

-- The group of a source, with these events.
abbrev pub group_with : List GroupEvent → BindingRecord → Group
group_with events b = record {
  source = b.source;
  owner = b.owner;
  entry = b.entry;
  snapshot_policy = b.snapshot_policy;
  acknowledge_policy = b.acknowledge_policy;
  events = events;
}

abbrev pub append_event : Group → BindingRecord → Group
append_event g b = record g { events = g.events ++ group_event b ∷ [] }

-- `decode`: `groups.setdefault(source, …)["events"].append(…)`, and the loop over the bindings.
unfoldable pub put_group : List Group → BindingRecord → List Group
put_group [] b = append_event (group_with [] b) b ∷ []
put_group (g ∷ gs) b =
    if text_eq g.source b.source then append_event g b ∷ gs else g ∷ put_group gs b

unfoldable pub groups_of : List Group → List BindingRecord → List Group
groups_of gs [] = gs
groups_of gs (b ∷ bs) = groups_of (put_group gs b) bs

abbrev pub group_lt : Group → Group → Bool
group_lt a b = is_lt (text_compare a.source b.source)

abbrev pub event_lt : GroupEvent → GroupEvent → Bool
event_lt a b =
    is_lt
      (then_compare (compare a.dispatch_order b.dispatch_order) (identity_compare a.event b.event))

-- `[groups[key] for key in sorted(groups)]`, with the events of each sorted.
unfoldable pub canonical_groups : List Group → List Group
canonical_groups gs =
    map (λ (g : Group). record g { events = sort event_lt g.events }) (sort group_lt gs)

-- `_identifier`
unfoldable pub identifier_character : ℕ → Bool
identifier_character c =
    leb c 127
    && ((leb b'a' c && leb c b'z')
        || (leb b'A' c && leb c b'Z')
        || (leb b'0' c && leb c b'9')
        || c == b'_')

unfoldable pub identifier_characters : Text → Bool
identifier_characters [] = true
identifier_characters (c ∷ cs) = identifier_character c && identifier_characters cs

unfoldable pub identifier : Text → Bool
identifier [] = false
identifier (c ∷ cs) = identifier_characters (c ∷ cs)

unfoldable pub identifiers : List Text → Bool
identifiers [] = true
identifiers (t ∷ ts) = identifier t && identifiers ts

abbrev pub key_texts : EventIdentity → List Text
key_texts e = e.instance_name ∷ e.request ∷ e.kind ∷ []

-- `plan["backend"] in BACKENDS`
unfoldable pub known_backend : Text → Bool
known_backend t =
    text_eq t (b'm' ∷ b'o' ∷ b'c' ∷ b'k' ∷ [])
    || text_eq t (b'a' ∷ b'v' ∷ b'r' ∷ [])
    || text_eq t (b'e' ∷ b's' ∷ b'p' ∷ b'3' ∷ b'2' ∷ [])

abbrev pub names_eq : HandlerNames → Text → Text → Text → Bool
names_eq n handler context delivery =
    text_eq n.handler handler && text_eq n.context context && text_eq n.delivery delivery

-- The four routes that a demand may have.
unfoldable pub known_route : HandlerNames → Bool
known_route n =
    names_eq n raw_text isr_text direct_text
    || names_eq n event_text isr_text direct_text
    || names_eq n event_text main_loop_text elide_text
    || names_eq n event_text main_loop_text stream_text

-- The loop over the demands.
unfoldable pub valid_demands : List Demand → Bool
valid_demands [] = true
valid_demands (d ∷ ds) = identifiers (key_texts d.key) && known_route d.named && valid_demands ds

abbrev pub demand_keys_of : List Demand → List EventIdentity
demand_keys_of ds = map (λ (d : Demand). d.key) ds

abbrev pub binding_keys_of : List BindingRecord → List EventIdentity
binding_keys_of bs = map (λ (b : BindingRecord). b.event) bs

-- `==` of two lists of keys.
unfoldable pub keys_eq : List EventIdentity → List EventIdentity → Bool
keys_eq [] [] = true
keys_eq (a ∷ as_) (b ∷ bs) = identity_eq a b && keys_eq as_ bs
keys_eq _ _ = false

-- `set(keys)`, without an order.
unfoldable pub without_key : EventIdentity → List EventIdentity → List EventIdentity
without_key k [] = []
without_key k (l ∷ ls) = if identity_eq k l then without_key k ls else l ∷ without_key k ls

unfoldable pub key_set : List EventIdentity → List EventIdentity
key_set [] = []
key_set (k ∷ ks) = k ∷ without_key k (key_set ks)

-- `demand_keys == sorted(set(demand_keys))`
unfoldable pub keys_ordered : List EventIdentity → Bool
keys_ordered ks = keys_eq ks (sort identity_lt (key_set ks))

-- The checks of the deferred context.
unfoldable pub any_deferred : List Demand → Bool
any_deferred [] = false
any_deferred (d ∷ ds) = text_eq d.named.context main_loop_text || any_deferred ds

unfoldable pub valid_context : List Demand → ℕ → Text → Bool
valid_context demands capacity policy =
    if any_deferred demands
    then leb 1 capacity && leb capacity 2048 && identifier policy
    else capacity == 0 && text_eq policy []

-- The fields of one binding.
unfoldable pub valid_binding : BindingRecord → Bool
valid_binding b =
    identifiers (key_texts b.event)
    && identifiers (
        b.owner ∷ b.configuration ∷ b.source ∷ b.selector ∷ b.entry ∷ b.snapshot_policy
        ∷ b.acknowledge_policy ∷ [])
    && leb b.dispatch_order 65535
    && not b.shared_source
