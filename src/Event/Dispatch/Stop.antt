-- ===== src/Event/Dispatch/Stop.antt =====
-- The budget bounds a call of `dispatch`, and a `stop` during the call ends it.
use grevir_core.Common.{
  ℕ, zero, suc, ◌+◌, ◌≤◌, Bool, true, false, List, [], ◌∷◌, ◌++◌, ◌≡◌, refl, arith, some, ◌∙◌,
  Bool-cases, Option-cases, inl, inr, ◌==◌, ◌≢◌,
}
use grevir_core.Event.Mailbox
use grevir_core.Event.Mailbox.{Mailbox, IsSpec}
use grevir_core.Event.Queue.{Spec, ContextPolicy, Queue, take_record, enter}
use grevir_core.Event.Queue.Inv.{Represents}
use grevir_core.Event.Dispatch.{
  Action, prepare_by, stop_queue, post_event, post_event_from_isr, attempt, read_overrun,
  reset_overrun, Observed, called, invoked, dispatched, run, dispatch_loop, dispatch,
}
use grevir_core.Event.Dispatch.Reference
use grevir_core.Event.Dispatch.Refine.{dispatch-EndsAs}

abbrev pub invocations_in : {Token R : Type 0} → List (Observed Token R) → ℕ
invocations_in [] = 0
invocations_in (invoked d ∷ trace) = suc (invocations_in trace)
invocations_in (called a r ∷ trace) = invocations_in trace
invocations_in (dispatched n ∷ trace) = invocations_in trace

abbrev pub stops : {Token : Type 0} → List (Action Token) → Bool
stops [] = false
stops (stop_queue ∷ rest) = true
stops (_ ∷ rest) = stops rest

invocations_in-append :
    {Token R : Type 0} (t u : List (Observed Token R))
    → invocations_in (t ++ u) ≡ invocations_in t + invocations_in u
invocations_in-append [] u = omega arith
invocations_in-append (invoked d ∷ t) u = omega (arith, invocations_in-append t u)
invocations_in-append (called a r ∷ t) u = invocations_in-append t u
invocations_in-append (dispatched n ∷ t) u = invocations_in-append t u

module _ {Token Owner : Type 0} (spec : Spec) (context : ContextPolicy Token Owner) where
  run_invokes_none :
      (actions : List (Action Token)) (q : Queue Owner)
      → invocations_in (run spec context actions q).1 ≡ 0
  unfolding run
  run_invokes_none [] q = refl
  run_invokes_none (a ∷ rest) q = run_invokes_none rest _

  loop_within_budget :
      (left handled : ℕ) (gaps : ℕ → List (Action Token)) (q : Queue Owner)
      → let o = dispatch_loop spec context left handled gaps q in
        (o.handled ≡ handled + invocations_in o.trace) × (invocations_in o.trace ≤ left)
  unfolding dispatch_loop
  loop_within_budget zero handled gaps q = omega arith
  loop_within_budget (suc left) handled gaps q = elim (Option-cases (take_record spec q)) [
    | inl stuck ↦ rw (stuck, dispatch_loop) (omega arith)
    | inr ((taken, q'), took) ↦
        let (q1, t1) = run spec context (gaps (handled + 1)) q' in
        let o = dispatch_loop spec context left (handled + 1) gaps q1 in
        rw (took, dispatch_loop)
          (omega (
            arith,
            loop_within_budget left (handled + 1) gaps q1,
            run_invokes_none (gaps (handled + 1)) q',
            invocations_in-append t1 o.trace,
          ))
  ]

  -- Whatever is called between its locked blocks, `dispatch` returns the number of records that it
  -- invoked, and that is at most the budget.
  pub dispatch_within_budget :
      (budget : ℕ) (current : Token) (gaps : ℕ → List (Action Token)) (q : Queue Owner)
      → let o = dispatch spec context budget current gaps q in
        (o.handled ≡ invocations_in o.trace) × (o.handled ≤ budget)
  unfolding dispatch
  dispatch_within_budget budget current gaps q = elim (Bool-cases (budget == 0)) [
    | inl none_due ↦ rw none_due (omega arith)
    | inr due ↦ elim (Option-cases (enter spec context current q)) [
      | inl refused ↦ rw (due, refused) (omega arith)
      | inr (q', entered) ↦
          let (q1, t1) = run spec context (gaps 0) q' in
          let o = dispatch_loop spec context budget 0 gaps q1 in
          let (q2, t2) = run spec context (gaps (o.handled + 1)) o.queue in
          rw (due, entered)
            (omega (
              arith,
              loop_within_budget budget 0 gaps q1,
              run_invokes_none (gaps 0) q',
              run_invokes_none (gaps (o.handled + 1)) o.queue,
              invocations_in-append t1 (o.trace ++ t2),
              invocations_in-append o.trace t2,
            ))
    ]
  ]

  -- While `dispatch` runs, nothing makes the queue ready again.
  act_stays_down :
      (a : Action Token) (m : Mailbox Owner)
      → m.dispatching ≡ true
      → ((Reference.act spec context a m).0.dispatching ≡ true)
        × (m.ready ≡ false → (Reference.act spec context a m).0.ready ≡ false)
  unfolding Reference.act Mailbox.post Mailbox.stop Mailbox.prepare Mailbox.enter
      Mailbox.clear_overrun
  act_stays_down (prepare_by t) m h = ground arith
  act_stays_down stop_queue m h = ground arith
  act_stays_down (post_event e) m h = ground arith
  act_stays_down (post_event_from_isr e) m h = ground arith
  act_stays_down (attempt t) m h = ground arith
  act_stays_down read_overrun m h = ground arith
  act_stays_down reset_overrun m h = ground arith

  stop_takes_down : (m : Mailbox Owner) → (Reference.act spec context stop_queue m).0.ready ≡ false
  unfolding Reference.act Mailbox.stop
  stop_takes_down m = refl

  run_goes_down :
      (actions : List (Action Token)) (m : Mailbox Owner)
      → m.dispatching ≡ true
      → ((Reference.run spec context actions m).0.dispatching ≡ true)
        × (m.ready ≡ false → (Reference.run spec context actions m).0.ready ≡ false)
        × (stops actions ≡ true → (Reference.run spec context actions m).0.ready ≡ false)
  unfolding Reference.run
  run_goes_down [] m h = ground arith
  run_goes_down (stop_queue ∷ rest) m h =
      let (busy, down) = act_stays_down stop_queue m h in
      let (end, stay, halt) = run_goes_down rest _ busy in
      (end, λ d. stay (down d), λ _. stay (stop_takes_down m))
  run_goes_down (a ∷ rest) m h =
      let (busy, down) = act_stays_down a m h in
      let (end, stay, halt) = run_goes_down rest _ busy in (end, λ d. stay (down d), halt)

  take_of_ready :
      (m : Mailbox Owner) (e : ℕ) (m' : Mailbox Owner)
      → Mailbox.take m ≡ some (e, m')
      → (m.ready ≡ true) × (m'.dispatching ≡ m.dispatching)
  unfolding Mailbox.take
  take_of_ready m e m' p = ground arith

  -- After the `k`th record, if the calls after it stop the queue, there is no next one.
  loop_stops :
      (left handled k : ℕ) (gaps : ℕ → List (Action Token)) (m : Mailbox Owner)
      → m.dispatching ≡ true
      → stops (gaps k) ≡ true
      → handled ≤ k
      → (handled ≡ k → m.ready ≡ false)
      → (Reference.dispatch_loop spec context left handled gaps m).handled ≤ k
  unfolding Reference.dispatch_loop
  loop_stops zero handled k gaps m busy halts le down = le
  loop_stops (suc left) handled k gaps m busy halts le down = elim (Option-cases (Mailbox.take m)) [
    | inl stuck ↦ rw (stuck, Reference.dispatch_loop) le
    | inr ((e, m'), took) ↦
        let (up, same) = take_of_ready m e m' took in
        let apart : handled ≢ k = λ now. cc (down now) in
        let (still, stay, halt) = run_goes_down (gaps (handled + 1)) m' (same ∙ busy) in
        rw (took, Reference.dispatch_loop)
          (loop_stops left (handled + 1) k gaps _ still halts (omega arith)
            (λ now. halt (rw now halts)))
  ]

  enter_busy :
      (current : Token) (m m' : Mailbox Owner)
      → Mailbox.enter context current m ≡ some m'
      → m'.dispatching ≡ true
  unfolding Mailbox.enter
  enter_busy current m m' p = ground arith

  mailbox_stops :
      (budget k : ℕ) (current : Token) (gaps : ℕ → List (Action Token)) (m : Mailbox Owner)
      → stops (gaps k) ≡ true
      → (Reference.dispatch spec context budget current gaps m).handled ≤ k
  unfolding Reference.dispatch
  mailbox_stops budget k current gaps m halts = elim (Bool-cases (budget == 0)) [
    | inl none_due ↦ rw none_due (omega arith)
    | inr due ↦ elim (Option-cases (Mailbox.enter context current m)) [
      | inl refused ↦ rw (due, refused) (omega arith)
      | inr (m', entered) ↦
          let busy = enter_busy current m m' entered in
          let (still, stay, halt) = run_goes_down (gaps 0) m' busy in
          rw (due, entered)
            (loop_stops budget 0 k gaps _ still halts (omega arith) (λ now. halt (rw now halts)))
    ]
  ]

module _ {Token Owner : Type 0} {spec : Spec} (good : IsSpec spec)
    (context : ContextPolicy Token Owner) where
  -- If the calls after the `k`th locked block that takes a record contain a `stop`, `dispatch` handles
  -- at most `k` records, even if something posts or prepares again.
  pub dispatch_stops :
      (budget k : ℕ) (current : Token) (gaps : ℕ → List (Action Token)) (q : Queue Owner)
      (m : Mailbox Owner)
      → Represents spec q m
      → stops (gaps k) ≡ true
      → (dispatch spec context budget current gaps q).handled ≤ k
  dispatch_stops budget k current gaps q m r halts =
      let ends = dispatch-EndsAs good context budget current gaps q m r in
      rw ends.handled (mailbox_stops spec context budget k current gaps m halts)
