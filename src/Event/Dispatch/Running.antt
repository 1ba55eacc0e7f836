-- ===== src/Event/Dispatch/Running.antt =====
-- What a call of `dispatch` serves, whatever is called during it but `stop`.
use mathlib.Core.List.{append_assoc}
use grevir_core.Common.{
  ℕ, zero, suc, ◌+◌, ◌≤◌, min, true, false, none, some, List, [], ◌∷◌, ◌++◌, append-nil, ◌≡◌, refl,
  sym, ap, subst, ◌∙◌, arith, length, length-append, List-cases, Bool-cases, ==_iff, inl, inr, ◌==◌,
}
use grevir_core.Event.Mailbox
use grevir_core.Event.Mailbox.{Mailbox, IsSpec}
use grevir_core.Event.Queue.{Spec, ContextPolicy}
use grevir_core.Event.Dispatch.{Action}
use grevir_core.Event.Dispatch.Reference
use grevir_core.Event.Dispatch.Stop.{stops}
use grevir_core.Event.Dispatch.Rounds.{served, served-append}
use grevir_core.Event.Dispatch.Extends.{Extends, run-Extends, run_serves_none}

-- At least `least` events were served, or all that waited; they and the waiting ones are those of before
-- and later posts.
pub record HasServed (before : List ℕ) (least : ℕ) (done after : List ℕ) : Type 0 where
  pub added : List ℕ
  pub all : done ++ after ≡ before ++ added
  pub enough : min least (length before) ≤ length done

pub nothing_yet : (w : List ℕ) → HasServed w 0 [] w
nothing_yet w = record { added = []; all = sym (append-nil w); enough = omega arith }

HasServed-more :
    (before added done after : List ℕ) (least : ℕ)
    → HasServed (before ++ added) least done after
    → HasServed before least done after
HasServed-more before added done after least h = record {
  added = added ++ h.added;
  all = h.all ∙ append_assoc before added h.added;
  enough = omega (arith, h.enough, length-append before added);
}

HasServed-first :
    (e : ℕ) (before done after : List ℕ) (least : ℕ)
    → HasServed before least done after
    → HasServed (e ∷ before) (suc least) (e ∷ done) after
HasServed-first e before done after least h = record {
  added = h.added;
  all = ap (λ xs. e ∷ xs) h.all;
  enough = omega (arith, h.enough);
}

pub HasServed-then :
    (w v u done then : List ℕ) (budget least : ℕ)
    → HasServed w budget done v
    → HasServed v least then u
    → HasServed w (budget + least) (done ++ then) u
HasServed-then w v u done then budget least g h = record {
  added = g.added ++ h.added;
  all =
      append_assoc done then u
      ∙ ap (λ xs. done ++ xs) h.all
      ∙ sym (append_assoc done v h.added)
      ∙ ap (λ xs. xs ++ h.added) g.all
      ∙ append_assoc w g.added h.added;
  enough = omega (
    arith,
    g.enough,
    h.enough,
    length-append done then,
    sym (length-append done v) ∙ ap length g.all ∙ length-append w g.added,
  );
}

HasServed-later :
    (before done after later : List ℕ) (least : ℕ)
    → HasServed before least done after
    → HasServed before least done (after ++ later)
HasServed-later before done after later least h = record {
  added = h.added ++ later;
  all =
      sym (append_assoc done after later)
      ∙ ap (λ xs. xs ++ later) h.all
      ∙ append_assoc before h.added later;
  enough = h.enough;
}

module _ {Token Owner : Type 0} (spec : Spec) (context : ContextPolicy Token Owner)
    (current : Token) where
  -- The current task may dispatch.
  pub record IsSteady (m : Mailbox Owner) : Type 0 where
    pub ready : m.ready ≡ true
    pub free : m.dispatching ≡ false
    pub owned : context.is_owner current m.owner ≡ true

  pub Steady-Extends : (m m' : Mailbox Owner) → Extends spec context m m' → IsSteady m → IsSteady m'
  Steady-Extends m m' x s = record {
    ready = x.ready ∙ s.ready;
    free = x.free ∙ s.free;
    owned = ap (context.is_owner current) x.owner ∙ s.owned;
  }

  pub HasServed-Extends :
      (m m' : Mailbox Owner) (least : ℕ) (done after : List ℕ)
      → Extends spec context m m'
      → HasServed m'.waiting least done after
      → HasServed m.waiting least done after
  HasServed-Extends m m' least done after x h =
      HasServed-more m.waiting x.added done after least
        (subst (λ w. HasServed w least done after) x.more h)

  module _ (gaps : ℕ → List (Action Token)) (calm : (k : ℕ) → stops (gaps k) ≡ false) where
    -- The loop of a running call, with calls between its locked blocks.
    record LoopServes (left : ℕ) (m : Mailbox Owner) (r : Reference.Result Token Owner)
        : Type 0 where
      ready : r.mailbox.ready ≡ true
      busy : r.mailbox.dispatching ≡ true
      owner : r.mailbox.owner ≡ m.owner
      serves : HasServed m.waiting left (served r.trace) r.mailbox.waiting

    take-none : (m : Mailbox Owner) → m.ready ≡ true → m.waiting ≡ [] → Mailbox.take m ≡ none
    unfolding Mailbox.take
    take-none m up empty = ground arith

    take-some :
        (m : Mailbox Owner) (e : ℕ) (more : List ℕ)
        → m.ready ≡ true
        → m.waiting ≡ e ∷ more
        → Mailbox.take m ≡ some (e, record m { waiting = more })
    unfolding Mailbox.take
    take-some m e more up first = ground arith

    loop-Serves :
        (left handled : ℕ) (m : Mailbox Owner)
        → m.ready ≡ true
        → m.dispatching ≡ true
        → LoopServes left m (Reference.dispatch_loop spec context left handled gaps m)
    unfolding Reference.dispatch_loop
    loop-Serves zero handled m up on = record {
      ready = up;
      busy = on;
      owner = refl;
      serves = nothing_yet m.waiting;
    }
    loop-Serves (suc left) handled m up on = elim (List-cases m.waiting) [
      | inl empty ↦
          rw (take-none m up empty, Reference.dispatch_loop)
            (record {
              ready = up;
              busy = on;
              owner = refl;
              serves = record {
                added = [];
                all = sym (append-nil m.waiting);
                enough = omega (arith, ap length empty);
              };
            })
      | inr (e, more, first) ↦
          let m1 : Mailbox Owner = record m { waiting = more } in
          let ran = Reference.run spec context (gaps (handled + 1)) m1 in
          let x = run-Extends spec context (gaps (handled + 1)) m1 on (calm (handled + 1)) in
          let h = loop-Serves left (handled + 1) ran.0 (x.ready ∙ up) (x.free ∙ on) in
          let r = Reference.dispatch_loop spec context left (handled + 1) gaps ran.0 in
          let traced : served (ran.1 ++ r.trace) ≡ served r.trace =
            served-append ran.1 r.trace
            ∙ ap (λ xs. xs ++ served r.trace)
                (run_serves_none spec context (gaps (handled + 1)) m1) in
          rw (take-some m e more up first, Reference.dispatch_loop)
            (record {
              ready = h.ready;
              busy = h.busy;
              owner = h.owner ∙ x.owner;
              serves =
                  subst
                    (λ w. HasServed w (suc left) (e ∷ served (ran.1 ++ r.trace)) r.mailbox.waiting)
                    (sym first)
                    (subst (λ d. HasServed (e ∷ more) (suc left) (e ∷ d) r.mailbox.waiting)
                      (sym traced)
                      (HasServed-first e more (served r.trace) r.mailbox.waiting left (
                        HasServed-Extends m1 ran.0 left (served r.trace) r.mailbox.waiting x
                          h.serves)));
            })
    ]

    enter_steady :
        (m : Mailbox Owner)
        → IsSteady m
        → Mailbox.enter context current m ≡ some (record m { dispatching = true })
    unfolding Mailbox.enter
    enter_steady m s = ground (arith, s.ready, s.free, s.owned)

    -- A whole call of `dispatch`.
    pub record CallServes (budget : ℕ) (m : Mailbox Owner) (r : Reference.Result Token Owner)
        : Type 0 where
      pub steady : IsSteady r.mailbox
      pub serves : HasServed m.waiting budget (served r.trace) r.mailbox.waiting

    -- The part behind `enter`.
    running-Serves :
        (budget : ℕ) (m : Mailbox Owner)
        → IsSteady m
        → let ran = Reference.run spec context (gaps 0) (record m { dispatching = true }) in
          let r = Reference.dispatch_loop spec context budget 0 gaps ran.0 in
          let end = Reference.run spec context (gaps (r.handled + 1)) r.mailbox in
          CallServes budget m (record {
            handled = r.handled;
            trace = ran.1 ++ (r.trace ++ end.1);
            mailbox = Mailbox.leave end.0;
          })
    unfolding Mailbox.leave
    running-Serves budget m s =
        let m1 : Mailbox Owner = record m { dispatching = true } in
        let ran = Reference.run spec context (gaps 0) m1 in
        let x = run-Extends spec context (gaps 0) m1 refl (calm 0) in
        let r = Reference.dispatch_loop spec context budget 0 gaps ran.0 in
        let h = loop-Serves budget 0 ran.0 (x.ready ∙ s.ready) x.free in
        let more = gaps (r.handled + 1) in
        let end = Reference.run spec context more r.mailbox in
        let y = run-Extends spec context more r.mailbox h.busy (calm (r.handled + 1)) in
        let traced : served (ran.1 ++ (r.trace ++ end.1)) ≡ served r.trace =
          served-append ran.1 (r.trace ++ end.1)
          ∙ ap (λ xs. xs ++ served (r.trace ++ end.1)) (run_serves_none spec context (gaps 0) m1)
          ∙ served-append r.trace end.1
          ∙ ap (λ xs. served r.trace ++ xs) (run_serves_none spec context more r.mailbox)
          ∙ append-nil (served r.trace) in
        record {
          steady = record {
            ready = y.ready ∙ h.ready;
            free = refl;
            owned = ap (context.is_owner current) (y.owner ∙ h.owner ∙ x.owner) ∙ s.owned;
          };
          serves =
              subst (λ d. HasServed m.waiting budget d end.0.waiting) (sym traced)
                (HasServed-Extends m1 ran.0 budget (served r.trace) end.0.waiting x (
                  subst (λ w. HasServed ran.0.waiting budget (served r.trace) w) (sym y.more)
                    (HasServed-later ran.0.waiting (served r.trace) r.mailbox.waiting y.added budget
                      h.serves)));
        }

    pub call-Serves :
        (budget : ℕ) (m : Mailbox Owner)
        → IsSteady m
        → CallServes budget m (Reference.dispatch spec context budget current gaps m)
    unfolding Reference.dispatch
    call-Serves budget m s = elim (Bool-cases (budget == 0)) [
      | inl zero_budget ↦
          rw (zero_budget, Reference.dispatch)
            (record {
              steady = s;
              serves =
                  subst (λ b. HasServed m.waiting b [] m.waiting)
                    (sym ((==_iff budget 0).0 zero_budget)) (nothing_yet m.waiting);
            })
      | inr some_budget ↦
          rw (some_budget, enter_steady m s, Reference.dispatch) (running-Serves budget m s)
    ]
