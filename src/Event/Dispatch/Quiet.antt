-- ===== src/Event/Dispatch/Quiet.antt =====
-- A call of `dispatch` that nothing interrupts: it invokes the oldest records, as many as the budget
-- allows, in order.
use mathlib.Core.List.{map-map, append-nil}
use grevir_core.Common.{
  ℕ, zero, suc, ◌+◌, min, true, false, List, [], map, ◌≡◌, refl, arith, sym, ap, ◌∙◌, length, take,
  drop, List-cases, inl, inr, ◌⊎◌,
}
use grevir_core.Event.Mailbox
use grevir_core.Event.Mailbox.{Mailbox, IsSpec}
use grevir_core.Event.Queue.{Spec, ContextPolicy, Queue, entry, enter}
use grevir_core.Event.Queue.Inv.{Represents}
use grevir_core.Event.Dispatch.{Action, Observed, invoked, dispatch}
use grevir_core.Event.Dispatch.Reference
use grevir_core.Event.Dispatch.Refine.{as_stored, dispatch-EndsAs}

abbrev pub no_gaps : {Token : Type 0} → ℕ → List (Action Token)
no_gaps _ = []

module _ {Token Owner : Type 0} (spec : Spec) (context : ContextPolicy Token Owner) where
  -- The handler calls for these events, in order.
  abbrev pub invocations : List ℕ → List (Observed Token ℕ)
  invocations es = map invoked es

  record TakesFirst (left handled : ℕ) (m : Mailbox Owner) : Type 0 where
    handled_all :
        (Reference.dispatch_loop spec context left handled no_gaps m).handled
        ≡ handled + min left (length m.waiting)
    in_order :
        (Reference.dispatch_loop spec context left handled no_gaps m).trace
        ≡ map invoked (take left m.waiting)
    rest :
        (Reference.dispatch_loop spec context left handled no_gaps m).mailbox
        ≡ record m { waiting = drop left m.waiting }

  loop_quiet : (left handled : ℕ) (m : Mailbox Owner) → m.ready ≡ true → TakesFirst left handled m
  unfolding Reference.dispatch_loop Reference.run Mailbox.take
  loop_quiet zero handled m h = record { handled_all = omega arith; in_order = refl; rest = refl }
  loop_quiet (suc left) handled m h = elim (List-cases m.waiting) [
    | inl empty ↦ ground arith
    | inr (e, more, first) ↦
        ground (arith, loop_quiet left (handled + 1) (record m { waiting = more }) h, first)
  ]

  -- With budget 0, on a queue that is not ready, in a nested call, and from a task that is not the
  -- owner, `dispatch` returns 0, invokes nothing and changes nothing.
  pub dispatch_refused :
      (budget : ℕ) (current : Token) (gaps : ℕ → List (Action Token)) (q : Queue Owner)
      → (budget ≡ 0)
        ⊎ (q.ready ≡ false)
        ⊎ (q.dispatching ≡ true)
        ⊎ (context.is_owner current q.owner ≡ false)
      → dispatch spec context budget current gaps q ≡ record { handled = 0; trace = []; queue = q }
  unfolding dispatch enter
  dispatch_refused budget current gaps q h = ground arith

module _ {Token Owner : Type 0} {spec : Spec} (good : IsSpec spec)
    (context : ContextPolicy Token Owner) where
  pub record ServesFirst (budget : ℕ) (current : Token) (m : Mailbox Owner) : Type 0 where
    pub handled_all :
        (Reference.dispatch spec context budget current no_gaps m).handled
        ≡ min budget (length m.waiting)
    pub in_order :
        (Reference.dispatch spec context budget current no_gaps m).trace
        ≡ map invoked (take budget m.waiting)
    pub rest :
        (Reference.dispatch spec context budget current no_gaps m).mailbox
        ≡ record m { waiting = drop budget m.waiting; dispatching = false }

  pub dispatch_quiet :
      (budget : ℕ) (current : Token) (m : Mailbox Owner)
      → m.ready ≡ true
      → m.dispatching ≡ false
      → context.is_owner current m.owner ≡ true
      → ServesFirst budget current m
  unfolding Reference.dispatch Reference.run Mailbox.enter Mailbox.leave
  dispatch_quiet budget current m up free owns = ground (
    arith,
    loop_quiet spec context budget 0 (record m { dispatching = true }) up,
    append-nil (invocations spec context (take budget m.waiting)),
  )

  -- A call of `dispatch` by the owner of a ready queue, with nothing in between, handles the smaller of
  -- the budget and the count, invokes that many of the waiting events, oldest first, and leaves the
  -- others waiting.
  pub dispatch_in_order :
      (budget : ℕ) (current : Token) (q : Queue Owner) (m : Mailbox Owner)
      → Represents spec q m
      → q.ready ≡ true
      → q.dispatching ≡ false
      → context.is_owner current q.owner ≡ true
      → let o = dispatch spec context budget current no_gaps q in
        (o.handled ≡ min budget q.count)
        × (o.trace ≡ map (λ e. invoked (entry spec e)) (take budget m.waiting))
        × Represents spec o.queue
            (record m { waiting = drop budget m.waiting; dispatching = false })
  dispatch_in_order budget current q m r up free owns =
      let ends = dispatch-EndsAs good context budget current no_gaps q m r in
      let quiet =
        dispatch_quiet budget current m (sym r.ready ∙ up) (sym r.dispatching ∙ free)
          (rw r.owner at owns) in
      (
        ends.handled ∙ quiet.handled_all ∙ ap (min budget) (sym r.counted),
        ends.trace
            ∙ ap (map (as_stored spec)) quiet.in_order
            ∙ map-map (as_stored spec) invoked (take budget m.waiting),
        rw quiet.rest at ends.queue,
      )
