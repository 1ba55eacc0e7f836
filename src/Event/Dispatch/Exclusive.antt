-- ===== src/Event/Dispatch/Exclusive.antt =====
-- While one call of `dispatch` runs, no other starts, and the queue is not prepared again.
use grevir_core.Common.{ℕ, true, false, List, [], ◌∷◌, map, ◌≡◌, arith, subst, sym, ◌∙◌}
use grevir_core.Event.Mailbox
use grevir_core.Event.Mailbox.{Mailbox, IsSpec}
use grevir_core.Event.Queue.{Spec, ContextPolicy, Queue}
use grevir_core.Event.Queue.Inv.{Represents}
use grevir_core.Event.Dispatch.{
  Action, prepare_by, stop_queue, post_event, post_event_from_isr, attempt, read_overrun,
  reset_overrun, Reply, flag, Observed, called, invoked, dispatched, run,
}
use grevir_core.Event.Dispatch.Reference
use grevir_core.Event.Dispatch.Refine.{as_stored, run-Represents}

-- A call of `dispatch` or `prepare` is turned away.
abbrev pub Refuses : {Token : Type 0} → Action Token → Reply → Type 0
Refuses (prepare_by t) r = r ≡ flag false
Refuses (attempt t) r = r ≡ flag false
Refuses _ r = Unit {0}

abbrev pub AllRefused : {Token R : Type 0} → List (Observed Token R) → Type 0
AllRefused [] = Unit {0}
AllRefused (called a r ∷ trace) = Refuses a r × AllRefused trace
AllRefused (invoked d ∷ trace) = AllRefused trace
AllRefused (dispatched n ∷ trace) = AllRefused trace

AllRefused-stored :
    {Token : Type 0} (spec : Spec) (trace : List (Observed Token ℕ))
    → AllRefused trace
    → AllRefused (map (as_stored spec) trace)
AllRefused-stored spec [] h = h
AllRefused-stored spec (called a r ∷ trace) h = (h.0, AllRefused-stored spec trace h.1)
AllRefused-stored spec (invoked e ∷ trace) h = AllRefused-stored spec trace h
AllRefused-stored spec (dispatched n ∷ trace) h = AllRefused-stored spec trace h

module _ {Token Owner : Type 0} {spec : Spec} (good : IsSpec spec)
    (context : ContextPolicy Token Owner) where
  act-exclusive :
      (a : Action Token) (m : Mailbox Owner)
      → m.dispatching ≡ true
      → ((Reference.act spec context a m).0.dispatching ≡ true)
        × Refuses a (Reference.act spec context a m).1
  unfolding Reference.act Mailbox.post Mailbox.stop Mailbox.prepare Mailbox.enter
      Mailbox.clear_overrun
  act-exclusive (prepare_by t) m h = ground arith
  act-exclusive stop_queue m h = ground arith
  act-exclusive (post_event e) m h = ground arith
  act-exclusive (post_event_from_isr e) m h = ground arith
  act-exclusive (attempt t) m h = ground arith
  act-exclusive read_overrun m h = ground arith
  act-exclusive reset_overrun m h = ground arith

  mailbox_exclusive :
      (actions : List (Action Token)) (m : Mailbox Owner)
      → m.dispatching ≡ true
      → ((Reference.run spec context actions m).0.dispatching ≡ true)
        × AllRefused (Reference.run spec context actions m).1
  unfolding Reference.run
  mailbox_exclusive [] m h = (h, tt)
  mailbox_exclusive (a ∷ rest) m h =
      let (kept, refused) = act-exclusive a m h in
      let (end, later) = mailbox_exclusive rest _ kept in (end, (refused, later))

  -- While one call of `dispatch` is between its first and last locked blocks, any other calls leave it
  -- so, and each `dispatch` or `prepare` among them is turned away.
  pub run_exclusive :
      (actions : List (Action Token)) (q : Queue Owner) (m : Mailbox Owner)
      → Represents spec q m
      → q.dispatching ≡ true
      → ((run spec context actions q).0.dispatching ≡ true)
        × AllRefused (run spec context actions q).1
  run_exclusive actions q m r h =
      let (end, told) = run-Represents good context actions q m r in
      let (kept, refused) = mailbox_exclusive actions m (sym r.dispatching ∙ h) in
      (
        end.dispatching ∙ kept,
        subst AllRefused (sym told)
            (AllRefused-stored spec (Reference.run spec context actions m).1 refused),
      )
