-- ===== src/Event/Mailbox.antt =====
-- What the main-loop queue promises its callers: a bounded FIFO of events in which an elided event
-- waits at most once. It has no ring and no flags.
use grevir_core.Common.{
  ℕ, ◌<◌, Bool, true, false, ◌&&◌, ◌||◌, not, Option, none, some, List, [], ◌∷◌, ◌++◌, length, ◌==◌,
  if◌then◌else◌,
}
use grevir_core.Event.Route.{is_elide}
use grevir_core.Event.Queue.{Spec, ContextPolicy, PostResult, queued, coalesced, full, not_ready}

abbrev pub contains : ℕ → List ℕ → Bool
contains x [] = false
contains x (y ∷ ys) = x == y || contains x ys

-- What `Spec` guarantees: the static assertion of `QueueCapacity`, and the base library's choice of
-- an `index_type` that holds the capacity.
pub record IsSpec (spec : Spec) : Type 0 where
  pub positive : 0 < spec.capacity
  pub fits : spec.capacity < spec.index_mod

pub record Mailbox (Owner : Type 0) : Type 0 where
  pub waiting : List ℕ
  pub ready : Bool
  pub overrun : Bool
  pub dispatching : Bool
  pub owner : Owner

-- Whether `e` is elided and waits already.
abbrev pub is_waiting : Spec → ℕ → List ℕ → Bool
is_waiting spec e waiting = is_elide (spec.delivery e) && contains e waiting

module _ {Owner : Type 0} (spec : Spec) where
  unfoldable pub post : ℕ → Mailbox Owner → Mailbox Owner × PostResult
  post e m =
      if not m.ready
      then (m, not_ready)
      else if is_waiting spec e m.waiting
      then (m, coalesced)
      else if length m.waiting == spec.capacity
      then (record m { overrun = true }, full)
      else (record m { waiting = m.waiting ++ e ∷ [] }, queued)

module _ {Owner : Type 0} where
  abbrev pub take_first : List ℕ → Mailbox Owner → Option (ℕ × Mailbox Owner)
  take_first [] m = none
  take_first (e ∷ rest) m = some (e, record m { waiting = rest })

  unfoldable pub take : Mailbox Owner → Option (ℕ × Mailbox Owner)
  take m = if m.ready then take_first m.waiting m else none

  unfoldable pub stop : Mailbox Owner → Mailbox Owner
  stop m = record m { waiting = []; ready = false }

  unfoldable pub clear_overrun : Mailbox Owner → Mailbox Owner
  clear_overrun m = record m { overrun = false }

  unfoldable pub leave : Mailbox Owner → Mailbox Owner
  leave m = record m { dispatching = false }

  module _ {Token : Type 0} (context : ContextPolicy Token Owner) where
    unfoldable pub prepare : Token → Mailbox Owner → Mailbox Owner × Bool
    prepare current m = if m.ready || m.dispatching then (m, false) else (
      record {
        waiting = [];
        ready = true;
        overrun = false;
        dispatching = false;
        owner = context.bind current m.owner;
      },
      true,
    )

    unfoldable pub enter : Token → Mailbox Owner → Option (Mailbox Owner)
    enter current m =
        if m.ready && not m.dispatching && context.is_owner current m.owner
        then some (record m { dispatching = true })
        else none
