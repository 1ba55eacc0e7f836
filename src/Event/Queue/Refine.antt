-- ===== src/Event/Queue/Refine.antt =====
-- Each locked block of the queue does to the static members what the mailbox does to its list.
use native.Mathlib.Nat.{mod-eq_of_lt, mod-lt, mod-mod}
use native.Mathlib.Numerals.{add-one}
use mathlib.Core.List.{map-append}
use grevir_core.Common.{
  ℕ, suc, ◌+◌, ◌-◌, ◌%◌, ◌<◌, Bool, true, false, ◌&&◌, ◌||◌, ◌≡◌, refl, ap, ◌∙◌, sym, List, [], ◌∷◌,
  ◌++◌, map, arith, length, get_or, drop, length-set, length-append, ◌==◌, inl, inr, List-cases,
  Option, ◌⊎◌, none, some,
}
use grevir_core.Event.Route.{is_elide}
use grevir_core.Event.Mailbox
use grevir_core.Event.Mailbox.{Mailbox, IsSpec, contains, is_waiting}
use grevir_core.Event.Queue.{
  Spec, ContextPolicy, Queue, DispatchRecord, null_record, entry, cast, write_flag, enqueue, post,
  take_record, stop, clear_overrun, prepare, enter, leave,
}
use grevir_core.Event.Queue.Ring.{live, live-set, live-congr}
use grevir_core.Event.Queue.Inv.{Represents, Once, lower_flag, clear_records-eq, slot-eq, no_wrap}

contains-append : (x e : ℕ) (es : List ℕ) → contains x (es ++ e ∷ []) ≡ (contains x es || (x == e))
contains-append x e [] = ground arith
contains-append x e (y ∷ es) = ground (arith, contains-append x e es)

raise_flag :
    (spec : Spec) (e x : ℕ) (flags : ℕ → Bool)
    → write_flag (entry spec e).argument true flags x
      ≡ (flags x || (is_elide (spec.delivery x) && (x == e)))
raise_flag spec e x flags = ground arith

Once-append :
    (spec : Spec) (e : ℕ) (es : List ℕ)
    → Once spec es
    → is_waiting spec e es ≡ false
    → Once spec (es ++ e ∷ [])
Once-append spec e [] h fresh = ground arith
Once-append spec e (y ∷ es) h fresh = ground (arith, Once-append spec e es, contains-append y e es)

-- Two results are both absent, or both there and related.
abbrev pub Agree : {A B : Type 0} → (A → B → Type 0) → Option A → Option B → Type 0
Agree R none none = Unit {0}
Agree R (some a) (some b) = R a b
Agree R _ _ = ⊥

pub Agree-cases :
    {A B : Type 0} (R : A → B → Type 0) (o : Option A) (p : Option B)
    → Agree R o p
    → ((o ≡ none) × (p ≡ none)) ⊎ ((a : A) × (b : B) × (o ≡ some a) × (p ≡ some b) × R a b)
Agree-cases R none none h = inl (refl, refl)
Agree-cases R (some a) (some b) h = inr (a, b, refl, refl, h)
Agree-cases R none (some b) h = elim h [ ]
Agree-cases R (some a) none h = elim h [ ]

-- The block hands over the record of the mailbox's first event.
abbrev pub Took :
    {Owner : Type 0} (spec : Spec) → DispatchRecord × Queue Owner → ℕ × Mailbox Owner → Type 0
Took spec (d, q) (e, m) = (d ≡ entry spec e) × Represents spec q m

module _ {Owner : Type 0} {spec : Spec} (good : IsSpec spec) where
  pub stop-Represents :
      (q : Queue Owner) (m : Mailbox Owner)
      → Represents spec q m
      → Represents spec (stop spec q) (Mailbox.stop m)
  unfolding stop Mailbox.stop
  stop-Represents q m r =
      rw (clear_records-eq good (record q { ready = false }) m.waiting r.count_in r.stored r.flags)
        (ground (arith, good.positive))

  enqueue-Represents :
      (e : ℕ) (q : Queue Owner) (m : Mailbox Owner)
      → Represents spec q m
      → is_waiting spec e m.waiting ≡ false
      → q.ready ≡ true
      → q.count < spec.capacity
      → Represents spec (enqueue spec e q) (record m { waiting = m.waiting ++ e ∷ [] })
  unfolding enqueue
  enqueue-Represents e q m r fresh up h =
      rw (slot-eq good q q.count, no_wrap q.count good h)
        (record {
          room = length-set q.records _ (entry spec e) ∙ r.room;
          head_in = r.head_in;
          count_in = omega arith;
          counted = omega (arith, length-append m.waiting (e ∷ []), r.counted);
          stored = rw add-one (
              live-set q.records spec.capacity (entry spec e) q.count q.head _ (omega arith) h refl
              ∙ ap (λ l. l ++ entry spec e ∷ []) r.stored
              ∙ sym (map-append (entry spec) m.waiting (e ∷ [])));
          flags = λ x.
              ground
                (arith, raise_flag spec e x q.pending, r.flags x, contains-append x e m.waiting);
          once = Once-append spec e m.waiting r.once fresh;
          idle = λ d. ground arith;
          ready = r.ready;
          overrun = r.overrun;
          dispatching = r.dispatching;
          owner = r.owner;
        })

  -- The state and the result of `post` are the mailbox's.
  pub post-Represents :
      (e : ℕ) (q : Queue Owner) (m : Mailbox Owner)
      → Represents spec q m
      → Represents spec (post spec e q).0 (Mailbox.post spec e m).0
        × ((post spec e q).1 ≡ (Mailbox.post spec e m).1)
  unfolding post Mailbox.post
  post-Represents e q m r = ground (arith, enqueue-Represents e q m r, r.flags e)

  pub prepare-Represents :
      {Token : Type 0} (context : ContextPolicy Token Owner) (current : Token) (q : Queue Owner)
      (m : Mailbox Owner)
      → Represents spec q m
      → Represents spec (prepare spec context current q).0 (Mailbox.prepare context current m).0
        × ((prepare spec context current q).1 ≡ (Mailbox.prepare context current m).1)
  unfolding prepare Mailbox.prepare
  prepare-Represents context current q m r = ground (
    arith,
    clear_records-eq good (record q { owner = context.bind current q.owner }) m.waiting r.count_in
        r.stored r.flags,
    good.positive,
  )

  pub enter-Represents :
      {Token : Type 0} (context : ContextPolicy Token Owner) (current : Token) (q : Queue Owner)
      (m : Mailbox Owner)
      → Represents spec q m
      → Agree (Represents spec) (enter spec context current q) (Mailbox.enter context current m)
  unfolding enter Mailbox.enter
  enter-Represents context current q m r = ground arith

  pub leave-Represents :
      {Token : Type 0} (context : ContextPolicy Token Owner) (q : Queue Owner) (m : Mailbox Owner)
      → Represents spec q m
      → Represents spec (leave spec context q) (Mailbox.leave m)
  unfolding leave Mailbox.leave
  leave-Represents context q m r = ground arith

  pub clear_overrun-Represents :
      (q : Queue Owner) (m : Mailbox Owner)
      → Represents spec q m
      → Represents spec (clear_overrun spec q) (Mailbox.clear_overrun m)
  unfolding clear_overrun Mailbox.clear_overrun
  clear_overrun-Represents q m r = ground arith

  -- The first record, and what the ring holds without it.
  module _ (q : Queue Owner) (m : Mailbox Owner) (e : ℕ) (rest : List ℕ) where
    pub first_stored :
        Represents spec q m
        → m.waiting ≡ e ∷ rest
        → live q.records spec.capacity q.head (suc (length rest)) ≡ map (entry spec) (e ∷ rest)
    first_stored r first =
        let sized : q.count ≡ suc (length rest) = r.counted ∙ ap length first in
        rw (sized, first) at r.stored

    first_record :
        Represents spec q m
        → m.waiting ≡ e ∷ rest
        → get_or q.records q.head null_record ≡ entry spec e
    first_record r first =
        let found = ap (λ l. get_or l 0 null_record) (first_stored r first) in
        rw (mod-eq_of_lt r.head_in) at found

    pub taken-Represents :
        Represents spec q m
        → m.waiting ≡ e ∷ rest
        → Took spec
            (
              get_or q.records q.head null_record,
              record q {
                pending = write_flag (get_or q.records q.head null_record).argument false q.pending;
                head = cast spec ((q.head + 1) % spec.capacity);
                count = q.count - 1;
              },
            )
            (e, record m { waiting = rest })
    taken-Represents r first =
        let found = first_record r first in
        let less : q.count - 1 ≡ length rest = omega (arith, ap length first) in
        let once : Once spec (e ∷ rest) = rw first at r.once in
        let small = mod-lt (q.head + 1) {m = spec.capacity} good.positive in
        let whole : cast spec ((q.head + 1) % spec.capacity) ≡ (q.head + 1) % spec.capacity =
          mod-eq_of_lt (omega (arith, good.fits)) in
        (
          found,
          rw (found, whole)
              (record {
                room = r.room;
                head_in = small;
                count_in = omega arith;
                counted = omega (arith, ap length first);
                stored = rw less (
                    live-congr q.records spec.capacity _ (q.head + 1) (length rest)
                      (mod-mod (q.head + 1) spec.capacity)
                    ∙ ap (drop 1) (first_stored r first));
                flags = λ x. ground (arith, lower_flag spec e x q.pending, r.flags x, first, once);
                once = once.1;
                idle = λ d. ground (arith, r.idle d);
                ready = r.ready;
                overrun = r.overrun;
                dispatching = r.dispatching;
                owner = r.owner;
              }),
        )

  pub take-Represents :
      (q : Queue Owner) (m : Mailbox Owner)
      → Represents spec q m
      → Agree (Took spec) (take_record spec q) (Mailbox.take m)
  unfolding take_record Mailbox.take
  take-Represents q m r = elim (List-cases m.waiting) [
    | inl empty ↦ ground arith
    | inr (e, rest, first) ↦ ground (arith, taken-Represents q m e rest r first, ap length first)
  ]
