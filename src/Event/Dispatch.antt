-- ===== src/Event/Dispatch.antt =====
-- `MainLoopQueue::dispatch` (src/grevir/event/queue.hpp) as a run of its locked blocks, with the
-- calls that handlers, other tasks and interrupts make between two of them.
pub mod Reference
pub mod Refine
pub mod Replay
pub mod Contract
pub mod Exclusive
pub mod Quiet
pub mod Rounds
pub mod Extends
pub mod Running
pub mod Served
pub mod Overrun
pub mod Stop
use grevir_core.Common.{
  ℕ, zero, suc, ◌+◌, Bool, true, false, Option, none, some, List, [], ◌∷◌, ◌++◌, ◌==◌,
  if◌then◌else◌,
}
use grevir_core.Event.Queue.{
  Spec, ContextPolicy, Queue, DispatchRecord, PostResult, post, take_record, stop, clear_overrun,
  prepare, enter, leave,
}

-- A call that runs under one lock. `attempt` is a call of `dispatch`, by a handler or by another
-- task, as far as its first locked block.
pub data Action (Token : Type 0) : Type 0 where
  prepare_by : Token → Action Token
  stop_queue : Action Token
  post_event : ℕ → Action Token
  post_event_from_isr : ℕ → Action Token
  attempt : Token → Action Token
  read_overrun : Action Token
  reset_overrun : Action Token

pub data Reply : Type 0 where
  done : Reply
  flag : Bool → Reply
  posted : PostResult → Reply

-- What can be observed of the queue, in order: a call with its reply, and a record that `dispatch`
-- invokes. `dispatched` is the end of a call of `dispatch`, with its result.
pub data Observed (Token R : Type 0) : Type 0 where
  called : Action Token → Reply → Observed Token R
  invoked : R → Observed Token R
  dispatched : ℕ → Observed Token R

-- What a call of `dispatch` returns, what happened meanwhile, and the queue that it leaves.
pub record Outcome (Token Owner : Type 0) : Type 0 where
  pub handled : ℕ
  pub trace : List (Observed Token DispatchRecord)
  pub queue : Queue Owner

-- What a program does with the queue from the outside.
pub data Call (Token : Type 0) : Type 0 where
  single : Action Token → Call Token
  dispatch_by : ℕ → Token → (ℕ → List (Action Token)) → Call Token

module _ {Token Owner : Type 0} (spec : Spec) (context : ContextPolicy Token Owner) where
  unfoldable pub act : Action Token → Queue Owner → Queue Owner × Reply
  act (prepare_by t) q = let (q', b) = prepare spec context t q in (q', flag b)
  act stop_queue q = (stop spec q, done)
  act (post_event e) q = let (q', r) = post spec e q in (q', posted r)
  act (post_event_from_isr e) q = let (q', r) = post spec e q in (q', posted r)
  act (attempt t) q = elim (enter spec context t q) [
    | none ↦ (q, flag false)
    | some q' ↦ (q', flag true)
  ]
  act read_overrun q = (q, flag q.overrun)
  act reset_overrun q = (clear_overrun spec q, done)

  -- The calls in order.
  unfoldable pub run :
      List (Action Token) → Queue Owner → Queue Owner × List (Observed Token DispatchRecord)
  run [] q = (q, [])
  run (a ∷ rest) q =
      let (q', r) = act a q in let (q'', trace) = run rest q' in (q'', called a r ∷ trace)

  -- `while (handled < budget)`, where `gaps k` runs after the `k`th locked block of the call.
  unfoldable pub dispatch_loop :
      ℕ → ℕ → (ℕ → List (Action Token)) → Queue Owner → Outcome Token Owner
  dispatch_loop zero handled gaps q = record { handled = handled; trace = []; queue = q }
  dispatch_loop (suc left) handled gaps q = elim (take_record spec q) [
    | none ↦ record { handled = handled; trace = []; queue = q }
    | some (taken, q') ↦
        let (q'', during) = run (gaps (handled + 1)) q' in
        let rest = dispatch_loop left (handled + 1) gaps q'' in
        record rest { trace = invoked taken ∷ (during ++ rest.trace) }
  ]

  unfoldable pub dispatch :
      ℕ → Token → (ℕ → List (Action Token)) → Queue Owner → Outcome Token Owner
  dispatch budget current gaps q =
      if budget == 0
      then record { handled = 0; trace = []; queue = q }
      else elim (enter spec context current q) [
        | none ↦ record { handled = 0; trace = []; queue = q }
        | some q' ↦
            let (q1, before) = run (gaps 0) q' in
            let o = dispatch_loop budget 0 gaps q1 in
            let (q2, after) = run (gaps (o.handled + 1)) o.queue in
            record {
              handled = o.handled;
              trace = before ++ (o.trace ++ after);
              queue = leave spec context q2;
            }
      ]

  -- A whole use of the queue.
  unfoldable pub session :
      List (Call Token) → Queue Owner → Queue Owner × List (Observed Token DispatchRecord)
  session [] q = (q, [])
  session (single a ∷ rest) q =
      let (q', r) = act a q in let (q'', trace) = session rest q' in (q'', called a r ∷ trace)
  session (dispatch_by budget current gaps ∷ rest) q =
      let o = dispatch budget current gaps q in
      let (q', trace) = session rest o.queue in (q', o.trace ++ dispatched o.handled ∷ trace)
