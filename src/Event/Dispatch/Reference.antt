-- ===== src/Event/Dispatch/Reference.antt =====
-- The mailbox under the same calls: what a client of the queue may rely on.
use grevir_core.Common.{
  ℕ, zero, suc, ◌+◌, true, false, none, some, List, [], ◌∷◌, ◌++◌, ◌==◌, if◌then◌else◌,
}
use grevir_core.Event.Mailbox.{Mailbox, post, take, stop, clear_overrun, prepare, enter, leave}
use grevir_core.Event.Queue.{Spec, ContextPolicy}
use grevir_core.Event.Dispatch.{
  Action, prepare_by, stop_queue, post_event, post_event_from_isr, attempt, read_overrun,
  reset_overrun, Reply, done, flag, posted, Observed, called, invoked, dispatched, Call, single,
  dispatch_by,
}

pub record Result (Token Owner : Type 0) : Type 0 where
  pub handled : ℕ
  pub trace : List (Observed Token ℕ)
  pub mailbox : Mailbox Owner

module _ {Token Owner : Type 0} (spec : Spec) (context : ContextPolicy Token Owner) where
  unfoldable pub act : Action Token → Mailbox Owner → Mailbox Owner × Reply
  act (prepare_by t) m = let (m', b) = prepare context t m in (m', flag b)
  act stop_queue m = (stop m, done)
  act (post_event e) m = let (m', r) = post spec e m in (m', posted r)
  act (post_event_from_isr e) m = let (m', r) = post spec e m in (m', posted r)
  act (attempt t) m = elim (enter context t m) [
    | none ↦ (m, flag false)
    | some m' ↦ (m', flag true)
  ]
  act read_overrun m = (m, flag m.overrun)
  act reset_overrun m = (clear_overrun m, done)

  unfoldable pub run : List (Action Token) → Mailbox Owner → Mailbox Owner × List (Observed Token ℕ)
  run [] m = (m, [])
  run (a ∷ rest) m =
      let (m', r) = act a m in let (m'', trace) = run rest m' in (m'', called a r ∷ trace)

  unfoldable pub dispatch_loop :
      ℕ → ℕ → (ℕ → List (Action Token)) → Mailbox Owner → Result Token Owner
  dispatch_loop zero handled gaps m = record { handled = handled; trace = []; mailbox = m }
  dispatch_loop (suc left) handled gaps m = elim (take m) [
    | none ↦ record { handled = handled; trace = []; mailbox = m }
    | some (e, m') ↦
        let (m'', during) = run (gaps (handled + 1)) m' in
        let rest = dispatch_loop left (handled + 1) gaps m'' in
        record rest { trace = invoked e ∷ (during ++ rest.trace) }
  ]

  unfoldable pub dispatch :
      ℕ → Token → (ℕ → List (Action Token)) → Mailbox Owner → Result Token Owner
  dispatch budget current gaps m =
      if budget == 0
      then record { handled = 0; trace = []; mailbox = m }
      else elim (enter context current m) [
        | none ↦ record { handled = 0; trace = []; mailbox = m }
        | some m' ↦
            let (m1, before) = run (gaps 0) m' in
            let r = dispatch_loop budget 0 gaps m1 in
            let (m2, after) = run (gaps (r.handled + 1)) r.mailbox in
            record { handled = r.handled; trace = before ++ (r.trace ++ after); mailbox = leave m2 }
      ]

  unfoldable pub session :
      List (Call Token) → Mailbox Owner → Mailbox Owner × List (Observed Token ℕ)
  session [] m = (m, [])
  session (single a ∷ rest) m =
      let (m', r) = act a m in let (m'', trace) = session rest m' in (m'', called a r ∷ trace)
  session (dispatch_by budget current gaps ∷ rest) m =
      let r = dispatch budget current gaps m in
      let (m', trace) = session rest r.mailbox in (m', r.trace ++ dispatched r.handled ∷ trace)
