-- ===== src/Event/Dispatch/Overrun.antt =====
-- The overrun flag, and the count of handled records, told from the trace.
use grevir_core.Common.{
  ℕ, zero, suc, ◌+◌, Bool, true, false, List, [], ◌∷◌, ◌++◌, map, ◌≡◌, refl, arith, some, sym, ap,
  ◌∙◌, Bool-cases, Option-cases, inl, inr, ◌==◌,
}
use grevir_core.Event.Mailbox
use grevir_core.Event.Mailbox.{Mailbox, IsSpec}
use grevir_core.Event.Queue.{Spec, ContextPolicy, full, initial}
use grevir_core.Event.Dispatch.{
  Action, prepare_by, stop_queue, post_event, post_event_from_isr, attempt, read_overrun,
  reset_overrun, Reply, flag, posted, Observed, called, invoked, dispatched, Call, single,
  dispatch_by, session,
}
use grevir_core.Event.Dispatch.Reference
use grevir_core.Event.Dispatch.Refine.{as_stored}
use grevir_core.Event.Dispatch.Contract.{session_follows, empty_mailbox}

-- A post that found the queue full raises the flag; `prepare` and `clear_overrun` lower it.
abbrev pub flag_after : {Token : Type 0} → Action Token → Reply → Bool → Bool
flag_after (post_event e) (posted full) b = true
flag_after (post_event_from_isr e) (posted full) b = true
flag_after (prepare_by t) (flag true) b = false
flag_after reset_overrun r b = false
flag_after a r b = b

abbrev pub overruns : {Token R : Type 0} → List (Observed Token R) → Bool → Bool
overruns [] b = b
overruns (called a r ∷ trace) b = overruns trace (flag_after a r b)
overruns (invoked d ∷ trace) b = overruns trace b
overruns (dispatched n ∷ trace) b = overruns trace b

module _ {Token : Type 0} where
  overruns-append :
      (t u : List (Observed Token ℕ)) (b : Bool) → overruns (t ++ u) b ≡ overruns u (overruns t b)
  overruns-append [] u b = refl
  overruns-append (called a r ∷ t) u b = overruns-append t u (flag_after a r b)
  overruns-append (invoked d ∷ t) u b = overruns-append t u b
  overruns-append (dispatched n ∷ t) u b = overruns-append t u b

  overruns-stored :
      (spec : Spec) (t : List (Observed Token ℕ)) (b : Bool)
      → overruns (map (as_stored spec) t) b ≡ overruns t b
  overruns-stored spec [] b = refl
  overruns-stored spec (called a r ∷ t) b = overruns-stored spec t (flag_after a r b)
  overruns-stored spec (invoked d ∷ t) b = overruns-stored spec t b
  overruns-stored spec (dispatched n ∷ t) b = overruns-stored spec t b

module _ {Token Owner : Type 0} (spec : Spec) (context : ContextPolicy Token Owner) where
  act-overrun :
      (a : Action Token) (m : Mailbox Owner)
      → (Reference.act spec context a m).0.overrun
        ≡ flag_after a (Reference.act spec context a m).1 m.overrun
  unfolding Reference.act Mailbox.post Mailbox.stop Mailbox.prepare Mailbox.enter
      Mailbox.clear_overrun
  act-overrun (prepare_by t) m = ground arith
  act-overrun stop_queue m = ground arith
  act-overrun (post_event e) m = ground arith
  act-overrun (post_event_from_isr e) m = ground arith
  act-overrun (attempt t) m = ground arith
  act-overrun read_overrun m = ground arith
  act-overrun reset_overrun m = ground arith

  run-overrun :
      (actions : List (Action Token)) (m : Mailbox Owner)
      → (Reference.run spec context actions m).0.overrun
        ≡ overruns (Reference.run spec context actions m).1 m.overrun
  unfolding Reference.run
  run-overrun [] m = refl
  run-overrun (a ∷ rest) m =
      run-overrun rest _ ∙ ap (overruns (Reference.run spec context rest _).1) (act-overrun a m)

  take-overrun :
      (m : Mailbox Owner) (e : ℕ) (m' : Mailbox Owner)
      → Mailbox.take m ≡ some (e, m')
      → m'.overrun ≡ m.overrun
  unfolding Mailbox.take
  take-overrun m e m' p = ground arith

  loop-overrun :
      (left handled : ℕ) (gaps : ℕ → List (Action Token)) (m : Mailbox Owner)
      → let r = Reference.dispatch_loop spec context left handled gaps m in
        r.mailbox.overrun ≡ overruns r.trace m.overrun
  unfolding Reference.dispatch_loop
  loop-overrun zero handled gaps m = refl
  loop-overrun (suc left) handled gaps m = elim (Option-cases (Mailbox.take m)) [
    | inl stuck ↦ rw (stuck, Reference.dispatch_loop)
    | inr ((e, m'), took) ↦
        let (m1, t1) = Reference.run spec context (gaps (handled + 1)) m' in
        let r = Reference.dispatch_loop spec context left (handled + 1) gaps m1 in
        rw
          (
            took,
            Reference.dispatch_loop,
            overruns-append t1 r.trace,
            ← take-overrun m e m' took,
            ← run-overrun (gaps (handled + 1)) m',
          )
          (loop-overrun left (handled + 1) gaps m1)
  ]

  enter-overrun :
      (current : Token) (m m' : Mailbox Owner)
      → Mailbox.enter context current m ≡ some m'
      → m'.overrun ≡ m.overrun
  unfolding Mailbox.enter
  enter-overrun current m m' p = ground arith

  dispatch-overrun :
      (budget : ℕ) (current : Token) (gaps : ℕ → List (Action Token)) (m : Mailbox Owner)
      → let r = Reference.dispatch spec context budget current gaps m in
        r.mailbox.overrun ≡ overruns r.trace m.overrun
  unfolding Reference.dispatch Mailbox.leave
  dispatch-overrun budget current gaps m = elim (Bool-cases (budget == 0)) [
    | inl none_due ↦ rw none_due
    | inr due ↦ elim (Option-cases (Mailbox.enter context current m)) [
      | inl refused ↦ rw (due, refused)
      | inr (m', entered) ↦
          let (m1, t1) = Reference.run spec context (gaps 0) m' in
          let r = Reference.dispatch_loop spec context budget 0 gaps m1 in
          let (m2, t2) = Reference.run spec context (gaps (r.handled + 1)) r.mailbox in
          rw
            (
              due,
              entered,
              overruns-append t1 (r.trace ++ t2),
              overruns-append r.trace t2,
              ← enter-overrun current m m' entered,
              ← run-overrun (gaps 0) m',
              ← loop-overrun budget 0 gaps m1,
            )
            (run-overrun (gaps (r.handled + 1)) r.mailbox)
    ]
  ]

  mailbox-overrun :
      (calls : List (Call Token)) (m : Mailbox Owner)
      → (Reference.session spec context calls m).0.overrun
        ≡ overruns (Reference.session spec context calls m).1 m.overrun
  unfolding Reference.session
  mailbox-overrun [] m = refl
  mailbox-overrun (single a ∷ rest) m =
      mailbox-overrun rest _
      ∙ ap (overruns (Reference.session spec context rest _).1) (act-overrun a m)
  mailbox-overrun (dispatch_by budget current gaps ∷ rest) m =
      let r = Reference.dispatch spec context budget current gaps m in
      let (end, later) = Reference.session spec context rest r.mailbox in
      rw
        (
          overruns-append r.trace (dispatched r.handled ∷ later),
          ← dispatch-overrun budget current gaps m,
        )
        (mailbox-overrun rest r.mailbox)

module _ {Token Owner : Type 0} {spec : Spec} (good : IsSpec spec)
    (context : ContextPolicy Token Owner) where
  -- After any calls from the static initial state, `overrun_` is up exactly if some post was refused as
  -- full after the last `clear_overrun` and the last `prepare` that succeeded.
  pub session_overrun :
      (calls : List (Call Token)) (o : Owner)
      → let (q, trace) = session spec context calls (initial spec o) in
        q.overrun ≡ overruns trace false
  session_overrun calls o =
      let (r, told) = session_follows good context calls o in
      let m = empty_mailbox o in
      let same =
        ap (λ t. overruns t false) told
        ∙ overruns-stored spec (Reference.session spec context calls m).1 false in
      r.overrun ∙ mailbox-overrun spec context calls m ∙ sym same
