-- ===== src/Event/Dispatch/Served.antt =====
-- Repeated calls of `dispatch` serve every waiting event, whatever is called during them but `stop`.
use mathlib.Core.List.{map-append}
use grevir_core.Common.{
  ℕ, ◌+◌, ◌≤◌, true, false, List, [], ◌∷◌, ◌++◌, map, ◌≡◌, sym, ap, subst, ◌∙◌, arith, longer_part,
}
use grevir_core.Event.Mailbox
use grevir_core.Event.Mailbox.{Mailbox, IsSpec}
use grevir_core.Event.Queue.{Spec, ContextPolicy, DispatchRecord, Queue, entry}
use grevir_core.Event.Queue.Inv.{Represents}
use grevir_core.Event.Dispatch.{Action, dispatched, Call, dispatch_by, session}
use grevir_core.Event.Dispatch.Reference
use grevir_core.Event.Dispatch.Refine.{session-Represents}
use grevir_core.Event.Dispatch.Stop.{stops}
use grevir_core.Event.Dispatch.Rounds.{
  served, posting, Round, rounds, total_budget, NeverStopped, served-append, served-as_stored,
}
use grevir_core.Event.Dispatch.Extends.{post-Extends}
use grevir_core.Event.Dispatch.Running.{
  HasServed, nothing_yet, HasServed-then, IsSteady, Steady-Extends, HasServed-Extends, call-Serves,
}

module _ {Token Owner : Type 0} (spec : Spec) (context : ContextPolicy Token Owner)
    (current : Token) where
  -- What the mailbox's session of such rounds serves.
  abbrev Serves : ℕ → List (Call Token) → Mailbox Owner → Type 0
  Serves least calls m =
      let o = Reference.session spec context calls m in
      HasServed m.waiting least (served o.1) o.0.waiting

  posting-Serves :
      (least : ℕ) (calls : List (Call Token))
      → ((m : Mailbox Owner) → IsSteady spec context current m → Serves least calls m)
      → (es : List ℕ) (m : Mailbox Owner) → IsSteady spec context current m
      → Serves least (posting es calls) m
  unfolding Reference.session Reference.act
  posting-Serves least calls h [] m s = h m s
  posting-Serves least calls h (e ∷ es) m s =
      let m' = (Mailbox.post spec e m).0 in
      let x = post-Extends spec context e m in
      let rest =
        posting-Serves least calls h es m' (Steady-Extends spec context current m m' x s) in
      let o = Reference.session spec context (posting es calls) m' in
      HasServed-Extends spec context current m m' least (served o.1) o.0.waiting x rest

  -- One call of `dispatch`, and then calls that serve.
  dispatch-Serves :
      (budget : ℕ) (gaps : ℕ → List (Action Token))
      → ((k : ℕ) → stops (gaps k) ≡ false)
      → (least : ℕ) (calls : List (Call Token))
      → ((m : Mailbox Owner) → IsSteady spec context current m → Serves least calls m)
      → (m : Mailbox Owner) → IsSteady spec context current m
      → Serves (budget + least) (dispatch_by budget current gaps ∷ calls) m
  unfolding Reference.session
  dispatch-Serves budget gaps calm least calls h m s =
      let c = call-Serves spec context current gaps calm budget m s in
      let r = Reference.dispatch spec context budget current gaps m in
      let o = Reference.session spec context calls r.mailbox in
      subst (λ d. HasServed m.waiting (budget + least) d o.0.waiting)
        (sym (served-append r.trace (dispatched r.handled ∷ o.1)))
        (HasServed-then m.waiting r.mailbox.waiting o.0.waiting (served r.trace) (served o.1) budget
          least c.serves (h r.mailbox c.steady))

  rounds-Serves :
      (rs : List (Round Token))
      → NeverStopped rs
      → (m : Mailbox Owner) → IsSteady spec context current m
      → Serves (total_budget rs) (rounds current rs) m
  unfolding Reference.session
  rounds-Serves [] calm m s = nothing_yet m.waiting
  rounds-Serves (r ∷ more) (calm, later) m s =
      let least = total_budget more in
      let calls = rounds current more in
      posting-Serves (r.budget + least) (dispatch_by r.budget current r.gaps ∷ calls)
        (dispatch-Serves r.budget r.gaps calm least calls (rounds-Serves more later)) r.posts m s

  -- On a ready queue of a valid `Spec`, which represents a mailbox and on which no dispatch runs, let the
  -- owner call `dispatch` again and again, each time with some budget and with any posts before the
  -- call. During the calls, between any two of their locked blocks, handlers, other tasks and interrupts
  -- may post, call `dispatch` or `prepare`, and read or clear the overrun flag; only `stop` is never
  -- called. When the budgets add up to at least the number of waiting events, all of these have been
  -- invoked, oldest first and before any event posted later.
  pub session_serves :
      IsSpec spec
      → (rs : List (Round Token)) (q : Queue Owner) (m : Mailbox Owner) → NeverStopped rs
      → Represents spec q m
      → q.ready ≡ true
      → q.dispatching ≡ false
      → context.is_owner current q.owner ≡ true
      → q.count ≤ total_budget rs
      → (later : List DispatchRecord) × (served (session spec context (rounds current rs) q).1
          ≡ map (entry spec) m.waiting ++ later)
  session_serves good rs q m calm r up free owns enough =
      let calls = rounds current rs in
      let steady : IsSteady spec context current m = record {
        ready = sym r.ready ∙ up;
        free = sym r.dispatching ∙ free;
        owned = rw r.owner at owns;
      } in
      let o = Reference.session spec context calls m in
      let s = rounds-Serves rs calm m steady in
      let (later, first) =
        longer_part m.waiting (served o.1) s.added o.0.waiting s.all
          (omega (arith, s.enough, enough, r.counted)) in
      (
        map (entry spec) later,
        ap served (session-Represents good context calls q m r).1
            ∙ served-as_stored spec o.1
            ∙ ap (map (entry spec)) first
            ∙ map-append (entry spec) m.waiting later,
      )
