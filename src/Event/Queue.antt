-- ===== src/Event/Queue.antt =====
-- src/grevir/event/queue.hpp: the bounded main-loop queue, `detail::MainLoopQueue<Spec>`.
-- Each block under a lock guard is one function, so an interleaving of tasks and interrupts is a
-- sequence of calls of these functions. The queue's static members are the fields of `Queue`.
-- An event type is a number. A function pointer `&invoke<Event>` and a pointer to the flag
-- `Pending<Spec, Event>::value` are the event's number, and a null pointer is `none`.
pub mod Ring
pub mod Inv
pub mod Refine
use grevir_core.Common.{
  ℕ, zero, suc, ◌+◌, ◌-◌, ◌%◌, Bool, true, false, ◌&&◌, ◌||◌, not, Option, none, some, List, get_or,
  set, replicate, ◌==◌, if◌then◌else◌,
}
use grevir_core.Event.Route.{Delivery, is_elide}

pub data PostResult : Type 0 where
  queued coalesced full not_ready : PostResult

pub record DispatchRecord : Type 0 where
  pub invoke : Option ℕ
  pub argument : Option ℕ

abbrev pub null_record : DispatchRecord
null_record = record { invoke = none; argument = none }

-- What the queue takes from `Spec`: `QueueCapacity<Board>::value`, the number of values of
-- `index_type`, which the base library selects for the capacity, and each event's delivery.
pub record Spec : Type 0 where
  pub capacity : ℕ
  pub index_mod : ℕ
  pub delivery : ℕ → Delivery

-- `Board::MainLoopContext<Spec>`: it keeps an owner, which `bind` sets from a task's token.
pub record ContextPolicy (Token Owner : Type 0) : Type 0 where
  pub bind : Token → Owner → Owner
  pub is_owner : Token → Owner → Bool

pub record Queue (Owner : Type 0) : Type 0 where
  pub records : List DispatchRecord
  -- `Pending<Spec, Event>::value` of each event
  pub pending : ℕ → Bool
  pub head : ℕ
  pub count : ℕ
  pub ready : Bool
  pub overrun : Bool
  pub dispatching : Bool
  pub owner : Owner

-- `*static_cast<bool*>(argument) = value` behind the test for a null pointer.
abbrev pub write_flag : Option ℕ → Bool → (ℕ → Bool) → ℕ → Bool
write_flag none value flags = flags
write_flag (some e) value flags = λ x. if x == e then value else flags x

module _ (spec : Spec) where
  -- `static_cast<index_type>(x)`
  abbrev pub cast : ℕ → ℕ
  cast x = x % spec.index_mod

  -- The record that `post_with_guard` stores: only an elided event has a flag to clear.
  abbrev pub entry : ℕ → DispatchRecord
  entry e = record {
    invoke = some e;
    argument = if is_elide (spec.delivery e) then some e else none;
  }

module _ {Owner : Type 0} (spec : Spec) where
  -- The static members before `main`.
  abbrev pub initial : Owner → Queue Owner
  initial o = record {
    records = replicate spec.capacity null_record;
    pending = λ _. false;
    head = 0;
    count = 0;
    ready = false;
    overrun = false;
    dispatching = false;
    owner = o;
  }

  -- `static_cast<index_type>((head_ + i) % capacity)`
  abbrev pub slot : Queue Owner → ℕ → ℕ
  slot q i = cast spec ((q.head + i) % spec.capacity)

  -- One round of the loop of `clear_records`.
  unfoldable pub clear_slot : ℕ → Queue Owner → Queue Owner
  clear_slot i q = record q {
    pending = write_flag (get_or q.records (slot q i) null_record).argument false q.pending;
  }

  -- The loop of `clear_records` from index `i` on; the number says how many rounds are left.
  unfoldable pub clear_from : ℕ → ℕ → Queue Owner → Queue Owner
  clear_from zero i q = q
  clear_from (suc n) i q = clear_from n (cast spec (i + 1)) (clear_slot i q)

  unfoldable pub clear_records : Queue Owner → Queue Owner
  clear_records q = clear_from q.count 0 q

  unfoldable pub stop : Queue Owner → Queue Owner
  stop q =
      let cleared = clear_records (record q { ready = false }) in
      record cleared { head = 0; count = 0 }

  unfoldable pub enqueue : ℕ → Queue Owner → Queue Owner
  enqueue e q = record q {
    records = set q.records (slot q q.count) (entry spec e);
    pending = write_flag (entry spec e).argument true q.pending;
    count = cast spec (q.count + 1);
  }

  -- `post_with_guard`, which is `post` under one guard and `post_from_isr` under the other.
  unfoldable pub post : ℕ → Queue Owner → Queue Owner × PostResult
  post e q =
      if not q.ready
      then (q, not_ready)
      else if is_elide (spec.delivery e) && q.pending e
      then (q, coalesced)
      else if q.count == spec.capacity
      then (record q { overrun = true }, full)
      else (enqueue e q, queued)

  -- The locked block in the loop of `dispatch`: `none` where it breaks off.
  unfoldable pub take_record : Queue Owner → Option (DispatchRecord × Queue Owner)
  take_record q =
      if not q.ready || q.count == 0
      then none
      else let taken = get_or q.records q.head null_record in
        some (
          taken,
          record q {
            pending = write_flag taken.argument false q.pending;
            head = cast spec ((q.head + 1) % spec.capacity);
            count = q.count - 1;
          },
        )

  unfoldable pub clear_overrun : Queue Owner → Queue Owner
  clear_overrun q = record q { overrun = false }

  module _ {Token : Type 0} (context : ContextPolicy Token Owner) where
    -- `current` is what `Context::current_token()` returns to the caller.
    unfoldable pub prepare : Token → Queue Owner → Queue Owner × Bool
    prepare current q =
        if q.ready || q.dispatching
        then (q, false)
        else let cleared = clear_records (record q { owner = context.bind current q.owner }) in
          (record cleared { head = 0; count = 0; overrun = false; ready = true }, true)

    -- The first locked block of `dispatch`: `none` where it returns 0.
    unfoldable pub enter : Token → Queue Owner → Option (Queue Owner)
    enter current q =
        if not q.ready || q.dispatching || not (context.is_owner current q.owner)
        then none
        else some (record q { dispatching = true })

    -- The last locked block of `dispatch`.
    unfoldable pub leave : Queue Owner → Queue Owner
    leave q = record q { dispatching = false }
