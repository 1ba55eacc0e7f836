-- ===== src/Interrupt/Start/Laws.antt =====
-- In which order the hooks run, what a failed start leaves, and that the policy starts once.
use grevir_core.Common.{
  Bool, true, false, List, [], ◌∷◌, ◌++◌, ◌≡◌, ◌≢◌, ◌⊎◌, refl, ap, arith, if◌then◌else◌, map,
}
use grevir_core.Event.Queue.{Spec, ContextPolicy, Queue, prepare}
use grevir_core.Event.Queue.Inv.{prepare_refused, stop_lem}
use grevir_core.Event.Dispatch.{Action}
use grevir_core.Interrupt.Start.{
  SetupOutcome, success, event_context_failed, configuration_failed, registration_failed,
  pending_policy_failed, cleanup_failed, initiated, replayed, StartResult, default_result, Board,
  Machine, fail, prepare_selected, setup, settle, install, configure, start_body, StartPolicy,
  fresh_policy, replay, execute, BodyRun, returns, starts, run_body,
}

pub data Hook : Type 0 where
  masks configures sets_up installs settles enables cleans : Hook

-- What the hooks answer.
pub record Answers : Type 0 where
  pub configured : Bool
  pub installed : Bool
  pub settled : Bool
  pub cleaned : Bool

-- A board that answers so, and whose world is the list of the hooks that ran, the last one first.
abbrev pub recording : {Token : Type 0} → Answers → List (Action Token) → Board (List Hook) Token
recording a actions = record {
  mask_owned = λ w. masks ∷ w;
  configure = λ w. (configures ∷ w, a.configured);
  setup_modules = λ w. (sets_up ∷ w, actions);
  install_bindings = λ w. (installs ∷ w, a.installed);
  settle_pending = λ w. (settles ∷ w, a.settled);
  enable_owned = λ w. enables ∷ w;
  cleanup = λ w. (cleans ∷ w, a.cleaned);
}

-- The stages after the mask, each with its answer and the failure that it stands for.
abbrev pub stages : Bool → Answers → List (List Hook × Bool × SetupOutcome)
stages prepared a =
    ([], prepared, event_context_failed)
    ∷ (configures ∷ [], a.configured, configuration_failed)
    ∷ (installs ∷ sets_up ∷ [], a.installed, registration_failed)
    ∷ (settles ∷ [], a.settled, pending_policy_failed)
    ∷ []

-- The hooks up to the first stage that fails, the last one first, and the result.
abbrev pub go_through :
    Bool → List (List Hook × Bool × SetupOutcome) → List Hook → List Hook × StartResult
go_through tidy [] w = (enables ∷ w, default_result)
go_through tidy ((hooks, good, reason) ∷ rest) w =
    if good then go_through tidy rest (hooks ++ w) else (
      cleans ∷ masks ∷ (hooks ++ w),
      record {
        outcome = if tidy then reason else cleanup_failed;
        originating_failure = reason;
        disposition = initiated;
      },
    )

module _ {Token Owner : Type 0} (spec : Spec) (context : ContextPolicy Token Owner)
    (selected : Bool) where
  -- Whether the queue is ready for the application: always, if it needs none.
  abbrev pub queue_prepared : Token → Queue Owner → Bool
  queue_prepared current q = if selected then (prepare spec context current q).1 else true

  -- The hooks that `start` runs and its result, for every answer of the hooks, with or without a queue:
  -- it masks, then goes through preparing the queue, configuring, setting up and installing, settling,
  -- in this order; the first stage that fails is followed by a mask and a cleanup, and reported as both
  -- the outcome and its origin unless the cleanup fails too; if none fails, the interrupts are enabled
  -- at the end and nowhere else.
  pub start_trace :
      (a : Answers) (actions : List (Action Token)) (current : Token) (q : Queue Owner)
      → let (m, r) =
          start_body spec context
            (recording a actions)
            selected
            current
            (record { world = []; queue = q }) in
        (m.world, r) ≡ go_through a.cleaned (stages (queue_prepared current q) a) (masks ∷ [])
  unfolding start_body prepare_selected configure install settle fail setup
  start_trace a actions current q = ground arith

module _ {World Token Owner : Type 0} (spec : Spec) (context : ContextPolicy Token Owner)
    (board : Board World Token) where
  -- When an application with a queue fails to start, on any board and any queue: either the queue was
  -- not prepared and is as before, or it ends not ready and empty.
  pub failed_start_stops :
      (current : Token) (m : Machine World Owner)
      → (start_body spec context board true current m).1.originating_failure ≢ success
      → let (m', r) = start_body spec context board true current m in
        ((r.originating_failure ≡ event_context_failed) × (m'.queue ≡ m.queue))
        ⊎ ((m'.queue.ready ≡ false) × (m'.queue.count ≡ 0))
  unfolding start_body prepare_selected configure install settle fail setup
  failed_start_stops current m bad =
      grind (arith, stop_lem, prepare_refused spec context current m.queue, bad)

-- What a call from inside the first one returns.
abbrev pub nested_result : StartResult
nested_result = record default_result { disposition = replayed }

module _ {S : Type 0} where
  -- The results of calls of `execute` with these bodies in turn, and the state after them.
  abbrev pub calls : List (S → BodyRun S) → StartPolicy → S → S × List StartResult
  calls [] p s = (s, [])
  calls (body ∷ more) p s =
      let (p', s', r) = execute (λ q t. run_body (body t) q) p s in
      let (end, rest) = calls more p' s' in (end, r ∷ rest)

  -- What a body does alone, if a call of `execute` in it does nothing but return a result.
  abbrev pub alone : StartResult → BodyRun S → S × StartResult
  alone answer (returns s r) = (s, r)
  alone answer (starts s body next) = alone answer (next s answer)

  run_body-started :
      (b : BodyRun S) (r : StartResult)
      → let p : StartPolicy = record { started = true; result = r } in
        let (s', x) = alone (replay p) b in run_body b p ≡ (p, s', x)
  unfolding run_body execute replay
  run_body-started (returns s x) r = refl
  run_body-started (starts s body next) r =
      run_body-started (next s (record r { disposition = replayed })) r

  replays :
      (more : List (S → BodyRun S)) (r : StartResult) (s : S)
      → calls more (record { started = true; result = r }) s
        ≡ (s, map (λ b. record r { disposition = replayed }) more)
  unfolding execute replay
  replays [] r s = refl
  replays (b ∷ more) r s =
      ap (λ t. (t.0, record r { disposition = replayed } ∷ t.1)) (replays more r s)

  -- Of calls of `execute` on a fresh policy with any bodies in turn, the first one runs its body and
  -- returns its result; the others return that result as replayed, and no other body runs. A call of
  -- `execute` from inside the first body, with any body, runs nothing either, changes nothing, and
  -- returns the default result, success, as replayed.
  pub execute_once :
      (body : S → BodyRun S) (more : List (S → BodyRun S)) (s : S)
      → let (s', r) = alone nested_result (body s) in
        calls (body ∷ more) fresh_policy s
        ≡ (s', r ∷ map (λ b. record r { disposition = replayed }) more)
  unfolding execute replay
  execute_once body more s =
      let (s', r) = alone nested_result (body s) in
      rw (run_body-started (body s) default_result) (ap (λ t. (t.0, r ∷ t.1)) (replays more r s'))
