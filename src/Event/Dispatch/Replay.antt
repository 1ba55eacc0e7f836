-- ===== src/Event/Dispatch/Replay.antt =====
-- What a trace of the queue must look like, told without the queue: a list of waiting events that
-- accepted posts extend at the end, invocations shorten at the front, and `stop` empties.

use grevir_core.Common.{
  ℕ, zero, suc, ◌+◌, Bool, false, Option, none, some, List, [], ◌∷◌, ◌++◌, map, ◌==◌, ◌≡◌, refl,
  ◌∙◌, sym, if◌then◌else◌, length, arith, Bool-cases, List-cases, Option-cases, inl, inr, ==_iff,
}
use grevir_core.Event.Mailbox
use grevir_core.Event.Mailbox.{Mailbox, IsSpec, contains, is_waiting}
use grevir_core.Event.Queue.{
  Spec, ContextPolicy, DispatchRecord, PostResult, queued, coalesced, full, not_ready,
}
use grevir_core.Event.Dispatch.{
  Action, prepare_by, stop_queue, post_event, post_event_from_isr, attempt, read_overrun,
  reset_overrun, Reply, posted, Observed, called, invoked, dispatched, Call, single, dispatch_by,
}
use grevir_core.Event.Dispatch.Reference
use grevir_core.Event.Dispatch.Refine.{as_stored}

-- Whether the record's function is the handler of `e`.
abbrev pub invokes : Option ℕ → ℕ → Bool
invokes none e = false
invokes (some f) e = f == e

-- The waiting events after a post with this result, or `none` if it cannot have it.
abbrev pub judge_post : Spec → ℕ → PostResult → List ℕ → Option (List ℕ)
judge_post spec e queued w = if is_waiting spec e w then none else some (w ++ e ∷ [])
judge_post spec e coalesced w = if is_waiting spec e w then some w else none
judge_post spec e full w = if length w == spec.capacity then some w else none
judge_post spec e not_ready w = if length w == 0 then some w else none

abbrev pub judge_call : {Token : Type 0} → Spec → Action Token → Reply → List ℕ → Option (List ℕ)
judge_call spec (post_event e) (posted r) w = judge_post spec e r w
judge_call spec (post_event_from_isr e) (posted r) w = judge_post spec e r w
judge_call spec stop_queue r w = some []
judge_call spec a r w = some w

abbrev pub judge_invoked : DispatchRecord → List ℕ → Option (List ℕ)
judge_invoked d [] = none
judge_invoked d (e ∷ w) = if invokes d.invoke e then some w else none

abbrev pub judge :
    {Token : Type 0} → Spec → Observed Token DispatchRecord → List ℕ → Option (List ℕ)
judge spec (called a r) w = judge_call spec a r w
judge spec (invoked d) w = judge_invoked d w
judge spec (dispatched n) w = some w

abbrev pub and_then : Option (List ℕ) → (List ℕ → Option (List ℕ)) → Option (List ℕ)
and_then none f = none
and_then (some w) f = f w

abbrev pub replay :
    {Token : Type 0} → Spec → List (Observed Token DispatchRecord) → List ℕ → Option (List ℕ)
replay spec [] w = some w
replay spec (o ∷ trace) w = and_then (judge spec o w) (replay spec trace)

module _ {Token : Type 0} (spec : Spec) where
  -- The trace leads from the waiting events `w` to `v`.
  abbrev pub Leads : List (Observed Token ℕ) → List ℕ → List ℕ → Type 0
  Leads trace w v = replay spec (map (as_stored spec) trace) w ≡ some v

  pub Leads-append :
      (t u : List (Observed Token ℕ)) (w v x : List ℕ)
      → Leads t w v
      → Leads u v x
      → Leads (t ++ u) w x
  Leads-append [] u w v x p s = let same : w ≡ v = cc in rw same s
  Leads-append (o ∷ t) u w v x p s = elim (Option-cases (judge spec (as_stored spec o) w)) [
    | inl stuck ↦ cc (rw stuck at p)
    | inr (y, moves) ↦ rw moves (Leads-append t u y v x (rw moves at p) s)
  ]

  invoked-Leads :
      (e : ℕ) (t : List (Observed Token ℕ)) (w v : List ℕ)
      → Leads t w v
      → Leads (invoked e ∷ t) (e ∷ w) v
  invoked-Leads e t w v p = rw ((==_iff e e).1 refl) p

-- A queue that is not ready holds nothing.
abbrev pub IsIdle : {Owner : Type 0} → Mailbox Owner → Type 0
IsIdle m = m.ready ≡ false → m.waiting ≡ []

module _ {Token Owner : Type 0} (spec : Spec) (context : ContextPolicy Token Owner) where
  pub act-judged :
      (a : Action Token) (m : Mailbox Owner)
      → IsIdle m
      → (judge_call spec a (Reference.act spec context a m).1 m.waiting
          ≡ some (Reference.act spec context a m).0.waiting)
        × IsIdle (Reference.act spec context a m).0
  unfolding Reference.act Mailbox.post Mailbox.stop Mailbox.prepare Mailbox.enter
      Mailbox.clear_overrun
  act-judged (prepare_by t) m h = ground arith
  act-judged stop_queue m h = ground arith
  act-judged (post_event e) m h = ground arith
  act-judged (post_event_from_isr e) m h = ground arith
  act-judged (attempt t) m h = ground arith
  act-judged read_overrun m h = ground arith
  act-judged reset_overrun m h = ground arith

  run-Leads :
      (rest : List (Action Token)) (m : Mailbox Owner)
      → IsIdle m
      → Leads spec
          (Reference.run spec context rest m).1
          m.waiting
          (Reference.run spec context rest m).0.waiting
        × IsIdle (Reference.run spec context rest m).0
  unfolding Reference.run
  run-Leads [] m h = (refl, h)
  run-Leads (a ∷ rest) m h =
      let (first, kept) = act-judged a m h in
      let (later, end) = run-Leads rest _ kept in (rw first later, end)

  take-waiting :
      (m : Mailbox Owner)
      → IsIdle m
      → (e : ℕ) (m' : Mailbox Owner) → Mailbox.take m ≡ some (e, m')
      → (m.waiting ≡ e ∷ m'.waiting) × IsIdle m'
  unfolding Mailbox.take
  take-waiting m h e m' p = elim (List-cases m.waiting) [
    | inl empty ↦ ground arith
    | inr (x, rest, first) ↦ ground arith
  ]

  loop-Leads :
      (left handled : ℕ) (gaps : ℕ → List (Action Token)) (m : Mailbox Owner)
      → IsIdle m
      → let r = Reference.dispatch_loop spec context left handled gaps m in
        Leads spec r.trace m.waiting r.mailbox.waiting × IsIdle r.mailbox
  unfolding Reference.dispatch_loop
  loop-Leads zero handled gaps m h = (refl, h)
  loop-Leads (suc left) handled gaps m h = elim (Option-cases (Mailbox.take m)) [
    | inl stuck ↦ rw (stuck, Reference.dispatch_loop) (refl, h)
    | inr ((e, m'), took) ↦
        let (first, kept) = take-waiting m h e m' took in
        let (during, idle) = run-Leads (gaps (handled + 1)) m' kept in
        let (m1, t1) = Reference.run spec context (gaps (handled + 1)) m' in
        let r = Reference.dispatch_loop spec context left (handled + 1) gaps m1 in
        let (later, end) = loop-Leads left (handled + 1) gaps m1 idle in
        rw (took, Reference.dispatch_loop, first)
          (
            invoked-Leads spec e (t1 ++ r.trace) m'.waiting r.mailbox.waiting
                (Leads-append spec t1 r.trace m'.waiting m1.waiting r.mailbox.waiting during later),
            end,
          )
  ]

  enter-waiting :
      (current : Token) (m m' : Mailbox Owner)
      → Mailbox.enter context current m ≡ some m'
      → (m'.waiting ≡ m.waiting) × (m'.ready ≡ m.ready)
  unfolding Mailbox.enter
  enter-waiting current m m' p = ground arith

  dispatch-Leads :
      (budget : ℕ) (current : Token) (gaps : ℕ → List (Action Token)) (m : Mailbox Owner)
      → IsIdle m
      → let r = Reference.dispatch spec context budget current gaps m in
        Leads spec r.trace m.waiting r.mailbox.waiting × IsIdle r.mailbox
  unfolding Reference.dispatch Mailbox.leave
  dispatch-Leads budget current gaps m h = elim (Bool-cases (budget == 0)) [
    | inl none_due ↦ rw none_due (refl, h)
    | inr due ↦ elim (Option-cases (Mailbox.enter context current m)) [
      | inl refused ↦ rw (due, refused) (refl, h)
      | inr (m', entered) ↦
          let (same, ready) = enter-waiting current m m' entered in
          let (m1, t1) = Reference.run spec context (gaps 0) m' in
          let (before, idle) = run-Leads (gaps 0) m' (λ down. same ∙ h (sym ready ∙ down)) in
          let r = Reference.dispatch_loop spec context budget 0 gaps m1 in
          let (during, calm) = loop-Leads budget 0 gaps m1 idle in
          let (m2, t2) = Reference.run spec context (gaps (r.handled + 1)) r.mailbox in
          let (after, end) = run-Leads (gaps (r.handled + 1)) r.mailbox calm in
          rw (due, entered, ← same)
            (
              Leads-append spec t1 (r.trace ++ t2) m'.waiting m1.waiting m2.waiting before (
                  Leads-append spec r.trace t2 m1.waiting r.mailbox.waiting m2.waiting during
                    after),
              end,
            )
    ]
  ]

  pub session-Leads :
      (calls : List (Call Token)) (m : Mailbox Owner)
      → IsIdle m
      → Leads spec
          (Reference.session spec context calls m).1
          m.waiting
          (Reference.session spec context calls m).0.waiting
  unfolding Reference.session
  session-Leads [] m h = refl
  session-Leads (single a ∷ rest) m h =
      let (first, kept) = act-judged a m h in rw first (session-Leads rest _ kept)
  session-Leads (dispatch_by budget current gaps ∷ rest) m h =
      let r = Reference.dispatch spec context budget current gaps m in
      let (first, kept) = dispatch-Leads budget current gaps m h in
      let (end, later) = Reference.session spec context rest r.mailbox in
      Leads-append spec r.trace (dispatched r.handled ∷ later) m.waiting r.mailbox.waiting
        end.waiting first (session-Leads rest r.mailbox kept)
