-- ===== src/Event/Dispatch/Refine.antt =====
-- Whatever is called, in whatever order, the queue answers and delivers as the mailbox does.
use mathlib.Core.List.{map-append}
use grevir_core.Common.{
  ℕ, zero, suc, ◌+◌, List, [], ◌∷◌, ◌++◌, ◌==◌, ◌≡◌, refl, map, ap, ap₂, ◌∙◌, sym, Bool-cases, inl,
  inr, arith,
}
use grevir_core.Event.Mailbox.{Mailbox, IsSpec}
use grevir_core.Event.Queue.{Spec, ContextPolicy, Queue, DispatchRecord, entry}
use grevir_core.Event.Queue.Inv.{Represents}
use grevir_core.Event.Queue.Refine.{
  Agree-cases, Took, stop-Represents, post-Represents, prepare-Represents, enter-Represents,
  leave-Represents, clear_overrun-Represents, take-Represents,
}
use grevir_core.Event.Dispatch.{
  Action, prepare_by, stop_queue, post_event, post_event_from_isr, attempt, read_overrun,
  reset_overrun, flag, posted, Outcome, Observed, called, invoked, dispatched, Call, single,
  dispatch_by, session, act, run, dispatch_loop, dispatch,
}
use grevir_core.Event.Dispatch.Reference
use grevir_core.Event.Dispatch.Reference.{Result}

-- An observation of the mailbox, as one of the queue: an event is invoked through its record.
abbrev pub as_stored : {Token : Type 0} → Spec → Observed Token ℕ → Observed Token DispatchRecord
as_stored spec (called a r) = called a r
as_stored spec (invoked e) = invoked (entry spec e)
as_stored spec (dispatched n) = dispatched n

module _ {Token Owner : Type 0} {spec : Spec} (good : IsSpec spec)
    (context : ContextPolicy Token Owner) where
  pub act-Represents :
      (a : Action Token) (q : Queue Owner) (m : Mailbox Owner)
      → Represents spec q m
      → Represents spec (act spec context a q).0 (Reference.act spec context a m).0
        × ((act spec context a q).1 ≡ (Reference.act spec context a m).1)
  unfolding act Reference.act
  act-Represents (prepare_by t) q m r =
      let (kept, same) = prepare-Represents good context t q m r in (kept, ap flag same)
  act-Represents stop_queue q m r = (stop-Represents good q m r, refl)
  act-Represents (post_event e) q m r =
      let (kept, same) = post-Represents good e q m r in (kept, ap posted same)
  act-Represents (post_event_from_isr e) q m r =
      let (kept, same) = post-Represents good e q m r in (kept, ap posted same)
  act-Represents (attempt t) q m r = ground (arith, enter-Represents good context t q m r)
  act-Represents read_overrun q m r = (r, ap flag r.overrun)
  act-Represents reset_overrun q m r = (clear_overrun-Represents good q m r, refl)

  -- Two traces tell the same.
  abbrev pub Tells : List (Observed Token DispatchRecord) → List (Observed Token ℕ) → Type 0
  Tells t u = t ≡ map (as_stored spec) u

  Tells-append :
      (t u : List (Observed Token DispatchRecord)) (v w : List (Observed Token ℕ))
      → Tells t v
      → Tells u w
      → Tells (t ++ u) (v ++ w)
  Tells-append t u v w p s = ap₂ ◌++◌ p s ∙ sym (map-append (as_stored spec) v w)

  pub run-Represents :
      (as' : List (Action Token)) (q : Queue Owner) (m : Mailbox Owner)
      → Represents spec q m
      → Represents spec (run spec context as' q).0 (Reference.run spec context as' m).0
        × Tells (run spec context as' q).1 (Reference.run spec context as' m).1
  unfolding run Reference.run
  run-Represents [] q m r = (r, refl)
  run-Represents (a ∷ as') q m r =
      let (kept, same) = act-Represents a q m r in
      let (end, rest) = run-Represents as' _ _ kept in (end, ap₂ ◌∷◌ (ap (called a) same) rest)

  -- The calls end alike.
  pub record EndsAs (o : Outcome Token Owner) (r : Result Token Owner) : Type 0 where
    pub handled : o.handled ≡ r.handled
    pub trace : Tells o.trace r.trace
    pub queue : Represents spec o.queue r.mailbox

  pub dispatch_loop-EndsAs :
      (left handled : ℕ) (gaps : ℕ → List (Action Token)) (q : Queue Owner) (m : Mailbox Owner)
      → Represents spec q m
      → EndsAs
          (dispatch_loop spec context left handled gaps q)
          (Reference.dispatch_loop spec context left handled gaps m)
  unfolding dispatch_loop Reference.dispatch_loop
  dispatch_loop-EndsAs zero handled gaps q m r = record { handled = refl; trace = refl; queue = r }
  dispatch_loop-EndsAs (suc left) handled gaps q m r =
      elim (Agree-cases (Took spec) _ _ (take-Represents good q m r)) [
        | inl (stuck, empty) ↦
            rw (stuck, empty, dispatch_loop, Reference.dispatch_loop)
              (record { handled = refl; trace = refl; queue = r })
        | inr (taken, first, from, to, (found, after)) ↦
            let (later, during) = run-Represents (gaps (handled + 1)) _ _ after in
            let rest = dispatch_loop-EndsAs left (handled + 1) gaps _ _ later in
            rw (from, to, dispatch_loop, Reference.dispatch_loop)
              (record {
                handled = rest.handled;
                trace = ap₂ ◌∷◌ (ap invoked found) (Tells-append _ _ _ _ during rest.trace);
                queue = rest.queue;
              })
      ]

  -- From a queue that represents a mailbox, `dispatch` returns what the mailbox's `dispatch` returns,
  -- the two traces tell the same, and the queue left behind represents the mailbox left behind.
  pub dispatch-EndsAs :
      (budget : ℕ) (current : Token) (gaps : ℕ → List (Action Token)) (q : Queue Owner)
      (m : Mailbox Owner)
      → Represents spec q m
      → EndsAs
          (dispatch spec context budget current gaps q)
          (Reference.dispatch spec context budget current gaps m)
  unfolding dispatch Reference.dispatch
  dispatch-EndsAs budget current gaps q m r = elim (Bool-cases (budget == 0)) [
    | inl none_due ↦ rw none_due (record { handled = refl; trace = refl; queue = r })
    | inr due ↦
        elim (Agree-cases (Represents spec) _ _ (enter-Represents good context current q m r)) [
          | inl (refused, shut) ↦
              rw (due, refused, shut) (record { handled = refl; trace = refl; queue = r })
          | inr (q', m', into, to, entered) ↦
              let (first, before) = run-Represents (gaps 0) q' m' entered in
              let ends = dispatch_loop-EndsAs budget 0 gaps _ _ first in
              let (last, after) = run-Represents (gaps (_ + 1)) _ _ ends.queue in
              rw (due, into, to)
                (record {
                  handled = ends.handled;
                  trace =
                      rw ends.handled
                        (Tells-append _ _ _ _ before (Tells-append _ _ _ _ ends.trace after));
                  queue = rw ends.handled (leave-Represents good context _ _ last);
                })
        ]
  ]

  pub session-Represents :
      (calls : List (Call Token)) (q : Queue Owner) (m : Mailbox Owner)
      → Represents spec q m
      → Represents spec (session spec context calls q).0 (Reference.session spec context calls m).0
        × Tells (session spec context calls q).1 (Reference.session spec context calls m).1
  unfolding session Reference.session
  session-Represents [] q m r = (r, refl)
  session-Represents (single a ∷ rest) q m r =
      let (kept, same) = act-Represents a q m r in
      let (end, later) = session-Represents rest _ _ kept in
      (end, ap₂ ◌∷◌ (ap (called a) same) later)
  session-Represents (dispatch_by budget current gaps ∷ rest) q m r =
      let ends = dispatch-EndsAs budget current gaps q m r in
      let (end, later) = session-Represents rest _ _ ends.queue in
      (end, Tells-append _ _ _ _ ends.trace (ap₂ ◌∷◌ (ap dispatched ends.handled) later))
