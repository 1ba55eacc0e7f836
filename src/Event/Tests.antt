-- ===== src/Event/Tests.antt =====
-- The main-loop queue on concrete calls, after tests/runtime/event_queue_test.cpp: capacity 2, the
-- events 1, 2 and 3 elided, event 9 a stream, and the preparing thread as the owner.
use grevir_core.Common.{
  ◌++◌, ℕ, ◌≤◌, ◌<◌, ◌+◌, ◌%◌, true, false, some, List, [], ◌∷◌, map, ◌≡◌, refl, arith, length,
  ◌==◌, min, take, drop, if◌then◌else◌,
}
use grevir_core.Event.Route.{elide, stream}
use grevir_core.Event.Mailbox.{Mailbox, IsSpec, is_waiting}
use grevir_core.Event.Queue.{
  Spec, ContextPolicy, Queue, DispatchRecord, queued, coalesced, full, not_ready, initial, entry,
  slot, clear_records, clear_slot, clear_from, stop, enqueue, post, take_record, clear_overrun,
  prepare, enter, leave,
}
use grevir_core.Event.Queue.Ring.{live}
use grevir_core.Event.Queue.Inv.{Represents, Once}
use grevir_core.Event.Dispatch.{
  Action, prepare_by, stop_queue, post_event, post_event_from_isr, attempt, flag, posted, Observed,
  called, invoked, dispatched, Call, single, dispatch_by, act, run, dispatch_loop, dispatch,
  session,
}
use grevir_core.Event.Dispatch.Reference
use grevir_core.Event.Dispatch.Refine.{as_stored, EndsAs, dispatch-EndsAs}
use grevir_core.Event.Dispatch.Replay.{replay}
use grevir_core.Event.Dispatch.Contract.{
  empty_mailbox, session_follows, session_replays, session_in_bounds,
}
use grevir_core.Event.Dispatch.Exclusive.{AllRefused, run_exclusive}
use grevir_core.Event.Dispatch.Rounds.{served, Round, rounds}
use grevir_core.Event.Dispatch.Served.{session_serves}
use grevir_core.Event.Dispatch.Quiet.{no_gaps, dispatch_in_order}
use grevir_core.Event.Dispatch.Overrun.{overruns, session_overrun}
use grevir_core.Event.Dispatch.Stop.{invocations_in, dispatch_within_budget, dispatch_stops}

abbrev board : Spec
board = record { capacity = 2; index_mod = 256; delivery = λ e. if e == 9 then stream else elide }

abbrev host_thread : ContextPolicy ℕ ℕ
host_thread = record { bind = λ t o. t; is_owner = λ t o. t == o }

board-IsSpec : IsSpec board
board-IsSpec = omega arith

-- Thread 7 prepares the queue; event 1 is coalesced and event 3 finds the queue full.
abbrev filling : List (Call ℕ)
filling =
    single (prepare_by 7)
    ∷ single (post_event_from_isr 1)
    ∷ single (post_event_from_isr 1)
    ∷ single (post_event 2)
    ∷ single (post_event 3)
    ∷ []

abbrev filled : Queue ℕ
filled = (session board host_thread filling (initial board 0)).0

abbrev filled_mailbox : Mailbox ℕ
filled_mailbox = (Reference.session board host_thread filling (empty_mailbox 0)).0

-- The handler of the first event posts it again, tries a nested `dispatch`, and prepares.
abbrev rearming : ℕ → List (Action ℕ)
rearming k = if k == 1 then post_event 1 ∷ attempt 7 ∷ prepare_by 7 ∷ [] else []

abbrev stopping : ℕ → List (Action ℕ)
stopping k = if k == 1 then post_event 3 ∷ stop_queue ∷ [] else []

abbrev whole_use : List (Call ℕ)
whole_use =
    single (post_event 1)
    ∷ single (prepare_by 7)
    ∷ single (post_event 1)
    ∷ single (post_event 1)
    ∷ single (post_event 9)
    ∷ single (post_event 2)
    ∷ dispatch_by 1 7 rearming
    ∷ dispatch_by 5 8 no_gaps
    ∷ dispatch_by 5 7 no_gaps
    ∷ []

abbrev trace_of : List (Call ℕ) → List (Observed ℕ DispatchRecord)
trace_of calls = (session board host_thread calls (initial board 0)).1

whole_use_runs :
    trace_of whole_use
    ≡ called (post_event 1) (posted not_ready)
      ∷ called (prepare_by 7) (flag true)
      ∷ called (post_event 1) (posted queued)
      ∷ called (post_event 1) (posted coalesced)
      ∷ called (post_event 9) (posted queued)
      ∷ called (post_event 2) (posted full)
      ∷ invoked (entry board 1)
      ∷ called (post_event 1) (posted queued)
      ∷ called (attempt 7) (flag false)
      ∷ called (prepare_by 7) (flag false)
      ∷ dispatched 1
      ∷ dispatched 0
      ∷ invoked (entry board 9)
      ∷ invoked (entry board 1)
      ∷ dispatched 2
      ∷ []
unfolding session act run dispatch dispatch_loop clear_records clear_slot clear_from stop enqueue
    post take_record clear_overrun prepare enter leave
whole_use_runs = refl

filled-Represents : Represents board filled filled_mailbox
filled-Represents = (session_follows board-IsSpec host_thread filling 0).0

session_follows_example :
    Represents board filled filled_mailbox
    × (trace_of filling
        ≡ map (as_stored board) (Reference.session board host_thread filling (empty_mailbox 0)).1)
session_follows_example = session_follows board-IsSpec host_thread filling 0

session_replays_example :
    let q = (session board host_thread whole_use (initial board 0)).0 in
    (w : List ℕ) × (replay board (trace_of whole_use) [] ≡ some w)
    × (live q.records 2 q.head q.count ≡ map (entry board) w)
    × ((e : ℕ) → q.pending e ≡ is_waiting board e w)
    × Once board w
session_replays_example = session_replays board-IsSpec host_thread whole_use 0

session_in_bounds_example :
    (length filled.records ≡ 2)
    × (filled.head < 2)
    × (filled.count ≤ 2)
    × (slot board filled filled.count ≡ (filled.head + filled.count) % 2)
    × (slot board filled filled.count < 2)
session_in_bounds_example = session_in_bounds board-IsSpec host_thread filling 0

session_overrun_example : filled.overrun ≡ overruns (trace_of filling) false
session_overrun_example = session_overrun board-IsSpec host_thread filling 0

dispatch-EndsAs_example :
    EndsAs board-IsSpec host_thread
      (dispatch board host_thread 2 7 rearming filled)
      (Reference.dispatch board host_thread 2 7 rearming filled_mailbox)
dispatch-EndsAs_example =
    dispatch-EndsAs board-IsSpec host_thread 2 7 rearming filled filled_mailbox filled-Represents

-- The queue after the first locked block of a call of `dispatch`.
abbrev busy : Queue ℕ
busy = record filled { dispatching = true }

abbrev busy_mailbox : Mailbox ℕ
busy_mailbox = record filled_mailbox { dispatching = true }

busy-Represents : Represents board busy busy_mailbox
busy-Represents =
    let r = filled-Represents in
    record {
      room = r.room;
      head_in = r.head_in;
      count_in = r.count_in;
      counted = r.counted;
      stored = r.stored;
      flags = r.flags;
      once = r.once;
      idle = r.idle;
      ready = r.ready;
      overrun = r.overrun;
      dispatching = refl;
      owner = r.owner;
    }

run_exclusive_example :
    ((run board host_thread (rearming 1) busy).0.dispatching ≡ true)
    × AllRefused (run board host_thread (rearming 1) busy).1
run_exclusive_example =
    run_exclusive board-IsSpec host_thread (rearming 1) busy busy_mailbox busy-Represents refl

filled_ready : filled.ready ≡ true
unfolding session act clear_records clear_slot clear_from enqueue post prepare
filled_ready = refl

filled_free : filled.dispatching ≡ false
unfolding session act clear_records clear_slot clear_from enqueue post prepare
filled_free = refl

filled_owned : host_thread.is_owner 7 filled.owner ≡ true
unfolding session act clear_records clear_slot clear_from enqueue post prepare
filled_owned = refl

filled_foreign : host_thread.is_owner 8 filled.owner ≡ false
unfolding session act clear_records clear_slot clear_from enqueue post prepare
filled_foreign = refl

filled_few : filled.count ≤ 4
unfolding session act clear_records clear_slot clear_from enqueue post prepare
filled_few = omega arith

dispatch_in_order_example :
    let o = dispatch board host_thread 5 7 no_gaps filled in
    (o.handled ≡ min 5 filled.count)
    × (o.trace ≡ map (λ e. invoked (entry board e)) (take 5 filled_mailbox.waiting))
    × Represents board o.queue
        (record filled_mailbox { waiting = drop 5 filled_mailbox.waiting; dispatching = false })
dispatch_in_order_example =
    dispatch_in_order board-IsSpec host_thread 5 7 filled filled_mailbox filled-Represents
      filled_ready filled_free filled_owned

-- Two calls with budgets 1 and 3, posts before them, and posts and other calls during them.
abbrev later_rounds : List (Round ℕ)
later_rounds =
    record {
      posts = 1 ∷ 2 ∷ [];
      budget = 1;
      gaps = λ k. post_event 3 ∷ attempt 7 ∷ prepare_by 7 ∷ [];
    }
    ∷ record { posts = 3 ∷ []; budget = 3; gaps = λ k. post_event_from_isr 2 ∷ [] }
    ∷ []

session_serves_example :
    (later : List DispatchRecord) × (served
        (session board host_thread (rounds 7 later_rounds) filled).1
      ≡ map (entry board) filled_mailbox.waiting ++ later)
session_serves_example =
    session_serves board host_thread 7 board-IsSpec later_rounds filled filled_mailbox
      ((λ k. refl), ((λ k. refl), tt)) filled-Represents filled_ready filled_free filled_owned
      filled_few

dispatch_within_budget_example :
    let o = dispatch board host_thread 1 7 rearming filled in
    (o.handled ≡ invocations_in o.trace) × (o.handled ≤ 1)
dispatch_within_budget_example = dispatch_within_budget board host_thread 1 7 rearming filled

dispatch_stops_example : (dispatch board host_thread 5 7 stopping filled).handled ≤ 1
dispatch_stops_example =
    dispatch_stops board-IsSpec host_thread 5 1 7 stopping filled filled_mailbox filled-Represents
      refl
