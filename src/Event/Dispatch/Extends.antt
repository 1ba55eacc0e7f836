-- ===== src/Event/Dispatch/Extends.antt =====
-- While a call of `dispatch` runs, every other call but `stop` leaves the waiting events in place.
use mathlib.Core.List.{append_assoc}
use grevir_core.Common.{
  ℕ, Bool, true, false, not, List, [], ◌∷◌, ◌++◌, append-nil, ◌≡◌, refl, sym, ap, subst, ◌∙◌, arith,
  length, ◌==◌, if◌then◌else◌,
}
use grevir_core.Event.Mailbox
use grevir_core.Event.Mailbox.{Mailbox, is_waiting}
use grevir_core.Event.Queue.{Spec, ContextPolicy, PostResult, queued, coalesced, full, not_ready}
use grevir_core.Event.Dispatch.{
  Action, prepare_by, stop_queue, post_event, post_event_from_isr, attempt, read_overrun,
  reset_overrun,
}
use grevir_core.Event.Dispatch.Reference
use grevir_core.Event.Dispatch.Rounds.{served}
use grevir_core.Event.Dispatch.Stop.{stops}

module _ {Token Owner : Type 0} (spec : Spec) (context : ContextPolicy Token Owner) where
  -- Events may have been added, and the overrun flag may have changed.
  pub record Extends (m m' : Mailbox Owner) : Type 0 where
    pub ready : m'.ready ≡ m.ready
    pub free : m'.dispatching ≡ m.dispatching
    pub owner : m'.owner ≡ m.owner
    pub added : List ℕ
    pub more : m'.waiting ≡ m.waiting ++ added

  same_mailbox : (m : Mailbox Owner) → Extends m m
  same_mailbox m = record {
    ready = refl;
    free = refl;
    owner = refl;
    added = [];
    more = sym (append-nil m.waiting);
  }

  abbrev first_of : Mailbox Owner × PostResult → Mailbox Owner
  first_of p = p.0

  -- The branches of a post.
  branches-Extends :
      (e : ℕ) (m : Mailbox Owner) (up again at_end : Bool)
      → Extends m (
          first_of (
            if not up
            then (m, not_ready)
            else if again
            then (m, coalesced)
            else if at_end
            then (record m { overrun = true }, full)
            else (record m { waiting = m.waiting ++ e ∷ [] }, queued)))
  branches-Extends e m false again at_end = same_mailbox m
  branches-Extends e m true true at_end = same_mailbox m
  branches-Extends e m true false true = record {
    ready = refl;
    free = refl;
    owner = refl;
    added = [];
    more = sym (append-nil m.waiting);
  }
  branches-Extends e m true false false = record {
    ready = refl;
    free = refl;
    owner = refl;
    added = e ∷ [];
    more = refl;
  }

  pub post-Extends : (e : ℕ) (m : Mailbox Owner) → Extends m (Mailbox.post spec e m).0
  unfolding Mailbox.post
  post-Extends e m =
      branches-Extends e m m.ready (is_waiting spec e m.waiting) (length m.waiting == spec.capacity)

  Extends-trans : (a b c : Mailbox Owner) → Extends a b → Extends b c → Extends a c
  Extends-trans a b c x y = record {
    ready = y.ready ∙ x.ready;
    free = y.free ∙ x.free;
    owner = y.owner ∙ x.owner;
    added = x.added ++ y.added;
    more = y.more ∙ ap (λ w. w ++ y.added) x.more ∙ append_assoc a.waiting x.added y.added;
  }

  same-Extends : (m m' : Mailbox Owner) → m' ≡ m → Extends m m'
  same-Extends m m' e = subst (Extends m) (sym e) (same_mailbox m)

  prepare_busy :
      (t : Token) (m : Mailbox Owner) → m.dispatching ≡ true → (Mailbox.prepare context t m).0 ≡ m
  unfolding Mailbox.prepare
  prepare_busy t m busy = ground arith

  attempt_busy :
      (t : Token) (m : Mailbox Owner)
      → m.dispatching ≡ true
      → (Reference.act spec context (attempt t) m).0 ≡ m
  unfolding Reference.act Mailbox.enter
  attempt_busy t m busy = ground arith

  act-Extends :
      (a : Action Token) (m : Mailbox Owner)
      → m.dispatching ≡ true
      → stops (a ∷ []) ≡ false
      → Extends m (Reference.act spec context a m).0
  unfolding Reference.act Mailbox.clear_overrun
  act-Extends (prepare_by t) m busy n = same-Extends m _ (prepare_busy t m busy)
  act-Extends stop_queue m busy n = cc n
  act-Extends (post_event e) m busy n = post-Extends e m
  act-Extends (post_event_from_isr e) m busy n = post-Extends e m
  act-Extends (attempt t) m busy n = same-Extends m _ (attempt_busy t m busy)
  act-Extends read_overrun m busy n = same_mailbox m
  act-Extends reset_overrun m busy n = record {
    ready = refl;
    free = refl;
    owner = refl;
    added = [];
    more = sym (append-nil m.waiting);
  }

  stops_cons :
      (a : Action Token) (rest : List (Action Token))
      → stops (a ∷ rest) ≡ false
      → (stops (a ∷ []) ≡ false) × (stops rest ≡ false)
  stops_cons (prepare_by t) rest n = (refl, n)
  stops_cons stop_queue rest n = cc n
  stops_cons (post_event e) rest n = (refl, n)
  stops_cons (post_event_from_isr e) rest n = (refl, n)
  stops_cons (attempt t) rest n = (refl, n)
  stops_cons read_overrun rest n = (refl, n)
  stops_cons reset_overrun rest n = (refl, n)

  pub run-Extends :
      (actions : List (Action Token)) (m : Mailbox Owner)
      → m.dispatching ≡ true
      → stops actions ≡ false
      → Extends m (Reference.run spec context actions m).0
  unfolding Reference.run
  run-Extends [] m busy n = same_mailbox m
  run-Extends (a ∷ rest) m busy n =
      let (n1, n2) = stops_cons a rest n in
      let m' = (Reference.act spec context a m).0 in
      let x = act-Extends a m busy n1 in
      Extends-trans m m' _ x (run-Extends rest m' (x.free ∙ busy) n2)

  pub run_serves_none :
      (actions : List (Action Token)) (m : Mailbox Owner)
      → served (Reference.run spec context actions m).1 ≡ []
  unfolding Reference.run
  run_serves_none [] m = refl
  run_serves_none (a ∷ rest) m = run_serves_none rest (Reference.act spec context a m).0
