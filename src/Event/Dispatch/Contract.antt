-- ===== src/Event/Dispatch/Contract.antt =====
-- What any use of the queue from its static initial state guarantees.
use native.Mathlib.Nat.{mod-lt}
use grevir_core.Common.{
  ℕ, ◌+◌, ◌%◌, ◌<◌, ◌≤◌, false, some, List, [], map, ◌≡◌, refl, ◌∙◌, ap, arith, length,
  length-replicate,
}
use grevir_core.Event.Mailbox.{Mailbox, IsSpec, is_waiting}
use grevir_core.Event.Queue.{Spec, ContextPolicy, null_record, initial, entry, slot}
use grevir_core.Event.Queue.Ring.{live}
use grevir_core.Event.Queue.Inv.{Represents, Once, slot-eq}
use grevir_core.Event.Dispatch.{Call, session}
use grevir_core.Event.Dispatch.Reference
use grevir_core.Event.Dispatch.Refine.{as_stored, session-Represents}
use grevir_core.Event.Dispatch.Replay.{replay, session-Leads}

abbrev pub empty_mailbox : {Owner : Type 0} → Owner → Mailbox Owner
empty_mailbox o = record {
  waiting = [];
  ready = false;
  overrun = false;
  dispatching = false;
  owner = o;
}

module _ {Token Owner : Type 0} {spec : Spec} (good : IsSpec spec)
    (context : ContextPolicy Token Owner) where
  pub initial-Represents : (o : Owner) → Represents spec (initial spec o) (empty_mailbox o)
  initial-Represents o = ground (arith, good.positive, length-replicate spec.capacity null_record)

  -- After any calls from the static initial state, the queue represents the mailbox to which the
  -- same calls were made, and every reply and every invoked record is the mailbox's.
  pub session_follows :
      (calls : List (Call Token)) (o : Owner)
      → let (q, trace) = session spec context calls (initial spec o) in
        let (m, told) = Reference.session spec context calls (empty_mailbox o) in
        Represents spec q m × (trace ≡ map (as_stored spec) told)
  session_follows calls o = session-Represents good context calls _ _ (initial-Represents o)

  -- The trace of any calls from the static initial state replays over a plain list: an accepted post
  -- extends it at the end (and is of no elided event that waits), a coalesced post is of an elided
  -- event that waits, a post is refused as full only at the capacity and as not ready only with
  -- nothing waiting, an invoked record is that of the first event, and `stop` empties it. The list at
  -- the end is what the ring holds; each flag is up exactly if its event is elided and waits; and no
  -- elided event waits twice.
  pub session_replays :
      (calls : List (Call Token)) (o : Owner)
      → let (q, trace) = session spec context calls (initial spec o) in
        (w : List ℕ) × (replay spec trace [] ≡ some w)
        × (live q.records spec.capacity q.head q.count ≡ map (entry spec) w)
        × ((e : ℕ) → q.pending e ≡ is_waiting spec e w)
        × Once spec w
  session_replays calls o =
      let (r, told) = session_follows calls o in
      let m = (Reference.session spec context calls (empty_mailbox o)).0 in
      (
        m.waiting,
        ap (λ t. replay spec t []) told
            ∙ session-Leads spec context calls (empty_mailbox o) (λ down. refl),
        r.stored,
        r.flags,
        r.once,
      )

  -- After any calls from the static initial state, the ring has `capacity` records, `head_` is below
  -- the capacity and `count_` not above it; the cast of the tail index loses nothing, and the index
  -- lies inside the ring.
  pub session_in_bounds :
      (calls : List (Call Token)) (o : Owner)
      → let (q, trace) = session spec context calls (initial spec o) in
        (length q.records ≡ spec.capacity)
        × (q.head < spec.capacity)
        × (q.count ≤ spec.capacity)
        × (slot spec q q.count ≡ (q.head + q.count) % spec.capacity)
        × (slot spec q q.count < spec.capacity)
  session_in_bounds calls o =
      let r = (session_follows calls o).0 in
      let q = (session spec context calls (initial spec o)).0 in
      let index = slot-eq good q q.count in
      (r.room, r.head_in, r.count_in, index, rw index (mod-lt (q.head + q.count) good.positive))
