-- ===== src/Event/Queue/Inv.antt =====
-- When a queue's static members represent a mailbox, and that `clear_records` lowers every flag.
use native.Mathlib.Nat.{add_assoc, add-zero, mod-eq_of_lt, mod-lt}
use mathlib.Core.Path.{fun_ext}
use grevir_core.Common.{
  ℕ, zero, suc, ◌+◌, ◌%◌, ◌≤◌, ◌<◌, Bool, false, ◌&&◌, not, ◌≡◌, refl, ap, ◌∙◌, List, [], ◌∷◌, map,
  arith, length, get_or, drop, ◌==◌,
}
use grevir_core.Event.Route.{is_elide}
use grevir_core.Event.Mailbox.{Mailbox, IsSpec, is_waiting}
use grevir_core.Event.Queue.{
  Spec, Queue, null_record, entry, cast, slot, write_flag, clear_slot, clear_from, clear_records,
  stop, ContextPolicy, prepare,
}
use grevir_core.Event.Queue.Ring.{live}

module _ (spec : Spec) where
  -- No elided event waits twice.
  abbrev pub Once : List ℕ → Type 0
  Once [] = Unit {0}
  Once (e ∷ es) = (is_waiting spec e es ≡ false) × Once es

  pub record Represents {Owner : Type 0} (q : Queue Owner) (m : Mailbox Owner) : Type 0 where
    pub room : length q.records ≡ spec.capacity
    pub head_in : q.head < spec.capacity
    pub count_in : q.count ≤ spec.capacity
    pub counted : q.count ≡ length m.waiting
    pub stored : live q.records spec.capacity q.head q.count ≡ map (entry spec) m.waiting
    pub flags : (e : ℕ) → q.pending e ≡ is_waiting spec e m.waiting
    pub once : Once m.waiting
    pub idle : m.ready ≡ false → m.waiting ≡ []
    pub ready : q.ready ≡ m.ready
    pub overrun : q.overrun ≡ m.overrun
    pub dispatching : q.dispatching ≡ m.dispatching
    pub owner : q.owner ≡ m.owner

pub lower_flag :
    (spec : Spec) (e x : ℕ) (flags : ℕ → Bool)
    → write_flag (entry spec e).argument false flags x
      ≡ (flags x && not (is_elide (spec.delivery x) && (x == e)))
lower_flag spec e x flags = ground arith

pub no_wrap : {spec : Spec} (i : ℕ) → IsSpec spec → i < spec.capacity → cast spec (i + 1) ≡ i + 1
no_wrap i good h = mod-eq_of_lt (omega arith)

module _ {Owner : Type 0} (spec : Spec) where
  -- The loop writes nothing but flags.
  pub clear_from-frame :
      (n i : ℕ) (q : Queue Owner)
      → clear_from spec n i q ≡ record q { pending = (clear_from spec n i q).pending }
  unfolding clear_from clear_slot
  clear_from-frame zero i q = refl
  clear_from-frame (suc n) i q = clear_from-frame n (cast spec (i + 1)) (clear_slot spec i q)

  -- A refused `prepare` changes nothing.
  pub prepare_refused :
      {Token : Type 0} (context : ContextPolicy Token Owner) (current : Token) (q : Queue Owner)
      → (prepare spec context current q).1 ≡ false
      → (prepare spec context current q).0 ≡ q
  unfolding prepare
  prepare_refused context current q h = ground arith

  -- `stop` leaves an empty ring that accepts nothing, and writes no more but flags.
  pub stop_lem :
      (q : Queue Owner)
      → stop spec q
        ≡ record q { pending = (stop spec q).pending; head = 0; count = 0; ready = false }
  unfolding stop clear_records
  stop_lem q =
      ap (λ (t : Queue Owner). record t { head = 0; count = 0 })
        (clear_from-frame q.count 0 (record q { ready = false }))

module _ {Owner : Type 0} {spec : Spec} (good : IsSpec spec) where
  -- The cast to `index_type` loses nothing of a ring index.
  pub slot-eq : (q : Queue Owner) (i : ℕ) → slot spec q i ≡ (q.head + i) % spec.capacity
  slot-eq q i =
      mod-eq_of_lt (omega (arith, mod-lt (q.head + i) {m = spec.capacity} good.positive, good.fits))

  clear_slot-pending :
      (i y x : ℕ) (q : Queue Owner)
      → get_or q.records ((q.head + i) % spec.capacity) null_record ≡ entry spec y
      → (clear_slot spec i q).pending x
        ≡ (q.pending x && not (is_elide (spec.delivery x) && (x == y)))
  unfolding clear_slot
  clear_slot-pending i y x q e = rw (slot-eq q i, e) (lower_flag spec y x q.pending)

  -- After the loop only the flags of the events that it passed over are down.
  pub clear_from-pending :
      (n i : ℕ) (q : Queue Owner) (es : List ℕ) (x : ℕ)
      → n + i ≤ spec.capacity
      → live q.records spec.capacity (q.head + i) n ≡ map (entry spec) es
      → (clear_from spec n i q).pending x ≡ (q.pending x && not (is_waiting spec x es))
  unfolding clear_from clear_slot
  clear_from-pending zero i q [] x h e = ground arith
  clear_from-pending zero i q (y ∷ es) x h e = cc
  clear_from-pending (suc n) i q [] x h e = cc
  clear_from-pending (suc n) i q (y ∷ es) x h e =
      let here = clear_slot-pending i y x q (ap (λ l. get_or l 0 null_record) e) in
      let rest =
        rw (ap (λ (k : ℕ). live q.records spec.capacity k n) (add_assoc q.head i 1)) at
          (ap (drop 1) e) in
      rw (no_wrap i good (omega (arith, h)), clear_from)
        (ground
          (arith, clear_from-pending n (i + 1) (clear_slot spec i q) es x (omega arith) rest, here))

  -- `clear_records` lowers every flag, if only queued events have theirs up, and writes no more.
  pub clear_records-eq :
      (q : Queue Owner) (es : List ℕ)
      → q.count ≤ spec.capacity
      → live q.records spec.capacity q.head q.count ≡ map (entry spec) es
      → ((e : ℕ) → q.pending e ≡ is_waiting spec e es)
      → clear_records spec q ≡ record q { pending = λ _. false }
  unfolding clear_records
  clear_records-eq q es h stored flags =
      clear_from-frame spec q.count 0 q ∙ ap (λ up. record q { pending = up }) (fun_ext lowered)
    where
      lowered : (x : ℕ) → (clear_from spec q.count 0 q).pending x ≡ false
      lowered x = ground (
        arith,
        clear_from-pending q.count 0 q es x (omega arith) (rw (add-zero q.head) stored),
        flags x,
      )
