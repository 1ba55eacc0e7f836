-- ===== src/Interrupt/Start.antt =====
-- src/grevir/interrupt/start.hpp and single_thread_start_policy.hpp: the start sequence of an
-- application, and the policy that runs it once.
pub mod Laws
use grevir_core.Common.{ℕ, Bool, true, false, not, ◌&&◌, List, [], ◌∷◌, ◌++◌, if◌then◌else◌}
use grevir_core.Event.Queue.{Spec, ContextPolicy, Queue, stop, prepare}
use grevir_core.Event.Dispatch.{Action, run}

pub data SetupOutcome : Type 0 where
  success : SetupOutcome
  event_context_failed : SetupOutcome
  configuration_failed : SetupOutcome
  registration_failed : SetupOutcome
  pending_policy_failed : SetupOutcome
  cleanup_failed : SetupOutcome
  in_progress : SetupOutcome

pub data CallDisposition : Type 0 where
  initiated waited replayed call_in_progress : CallDisposition

pub record StartResult : Type 0 where
  pub outcome : SetupOutcome
  pub originating_failure : SetupOutcome
  pub disposition : CallDisposition

-- `StartResult{}`
abbrev pub default_result : StartResult
default_result = record {
  outcome = success;
  originating_failure = success;
  disposition = initiated;
}

-- The board's hooks and the generated `install_bindings`, on a world that only they know. The
-- modules' setup may also call the queue.
pub record Board (World Token : Type 0) : Type 0 where
  pub mask_owned : World → World
  pub configure : World → World × Bool
  pub setup_modules : World → World × List (Action Token)
  pub install_bindings : World → World × Bool
  pub settle_pending : World → World × Bool
  pub enable_owned : World → World
  pub cleanup : World → World × Bool

pub record Machine (World Owner : Type 0) : Type 0 where
  pub world : World
  pub queue : Queue Owner

module _ {World Token Owner : Type 0} (spec : Spec) (context : ContextPolicy Token Owner)
    (board : Board World Token) (selected : Bool) where
  abbrev on_world : (World → World) → Machine World Owner → Machine World Owner
  on_world f m = record m { world = f m.world }

  abbrev ask : (World → World × Bool) → Machine World Owner → Machine World Owner × Bool
  ask f m = let (w, answer) = f m.world in (record m { world = w }, answer)

  -- `fail(reason, queue_prepared)`; `selected` is `DeferredContextPlan<Spec>::selected`.
  unfoldable pub fail :
      SetupOutcome → Bool → Machine World Owner → Machine World Owner × StartResult
  fail reason queue_prepared m =
      let masked = on_world board.mask_owned m in
      let stopped =
        if selected && queue_prepared
        then record masked { queue = stop spec masked.queue }
        else masked in
      let (cleaned, tidy) = ask board.cleanup stopped in
      (
        cleaned,
        if tidy
            then record { outcome = reason; originating_failure = reason; disposition = initiated }
            else record {
              outcome = cleanup_failed;
              originating_failure = reason;
              disposition = initiated;
            },
      )

  -- `if constexpr (selected) { if (!event::prepare<Spec>()) ... }`
  unfoldable pub prepare_selected : Token → Machine World Owner → Machine World Owner × Bool
  prepare_selected current m =
      if not selected
      then (m, true)
      else (let (q, prepared) = prepare spec context current m.queue in
          (record m { queue = q }, prepared))

  unfoldable pub setup : Machine World Owner → Machine World Owner
  setup m =
      let (w, actions) = board.setup_modules m.world in
      record { world = w; queue = (run spec context actions m.queue).0 }

  -- The lambda that `start` gives to the start policy, from `settle_pending` on.
  unfoldable pub settle : Machine World Owner → Machine World Owner × StartResult
  settle m =
      let (m', settled) = ask board.settle_pending m in
      if settled
      then (on_world board.enable_owned m', default_result)
      else fail pending_policy_failed true m'

  -- The same from `setup_modules` on.
  unfoldable pub install : Machine World Owner → Machine World Owner × StartResult
  install m =
      let (m', installed) = ask board.install_bindings (setup m) in
      if installed then settle m' else fail registration_failed true m'

  -- The same from `configure` on.
  unfoldable pub configure : Machine World Owner → Machine World Owner × StartResult
  configure m =
      let (m', configured) = ask board.configure m in
      if configured then install m' else fail configuration_failed true m'

  -- The whole lambda; `current` is the caller's token.
  unfoldable pub start_body : Token → Machine World Owner → Machine World Owner × StartResult
  start_body current m =
      let (m', prepared) = prepare_selected current (on_world board.mask_owned m) in
      if prepared then configure m' else fail event_context_failed false m'

-- The static members of `SingleThreadStartPolicy<Spec>`.
pub record StartPolicy : Type 0 where
  pub started : Bool
  pub result : StartResult

abbrev pub fresh_policy : StartPolicy
fresh_policy = record { started = false; result = default_result }

-- The early return of `execute`.
unfoldable pub replay : StartPolicy → StartResult
replay p = record (p.result) { disposition = replayed }

-- `SingleThreadStartPolicy<Spec>::execute`. The body gets the static members too, since it may call
-- `execute` itself.
unfoldable pub execute :
    {S : Type 0}
    → (StartPolicy → S → StartPolicy × S × StartResult)
    → StartPolicy
    → S
    → StartPolicy × S × StartResult
execute body p s =
    if p.started
    then (p, s, replay p)
    else let (p', s', r) = body (record p { started = true }) s in (record p' { result = r }, s', r)

-- What a body does from some state on: it returns, or it works up to some state, calls `execute` with
-- another body, and goes on with the state and the result that this call leaves.
pub data BodyRun (S : Type 0) : Type 0 where
  returns : S → StartResult → BodyRun S
  starts : S → (S → BodyRun S) → (S → StartResult → BodyRun S) → BodyRun S

-- `body()`: the static members are private, so only the calls of `execute` change them.
unfoldable pub run_body : {S : Type 0} → BodyRun S → StartPolicy → StartPolicy × S × StartResult
run_body (returns s r) p = (p, s, r)
run_body (starts s body next) p =
    let (p', s', r) = execute (λ q t. run_body (body t) q) p s in run_body (next s' r) p'
