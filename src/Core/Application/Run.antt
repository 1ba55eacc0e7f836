-- ===== src/Core/Application/Run.antt =====
-- The order in which an application calls its modules.
use grevir_core.Common.{
  ℕ, ◌<◌, some, List, [], ◌∷◌, ◌≡◌, ◌↔◌, ◌⊎◌, inl, inr, refl, ap, sym, ◌∙◌, All, Among,
}
use grevir_core.Core.TypeLists.{TypeLists}
use grevir_core.Core.Lifecycle.{order, lifecycle_order}
use grevir_core.Core.Lifecycle.Ordered.{
  Reach, root, dep, Reach-mono, IsOrdered, Extends, lifecycle_order-Extends,
}
use grevir_core.Core.Lifecycle.Fuel.{Below}
use grevir_core.Core.Lifecycle.Decides.{Ranks, lifecycle_order_decides}
use grevir_core.Core.Module.{
  ModuleCode, run_each, run_setup_interleaved, params_setup, params_loop, module_closure,
}
use grevir_core.Core.Module.Closure.{IsClosure, module_closure-IsClosure}
use grevir_core.Core.Application.{deps, module_runner, run_setup, run_loop}

-- A call for each module, the first one first.
abbrev pub each : {S : Type 0} → (ℕ → S → S) → List ℕ → S → S
each call [] s = s
each call (m ∷ ms) s = each call ms (call m s)

-- Each module stands once, behind its dependencies; `before` stands before all.
abbrev pub DepsFirst : (ℕ → List ℕ) → List ℕ → List ℕ → Type 0
DepsFirst deps before [] = Unit {0}
DepsFirst deps before (m ∷ ms) =
    ¬ Among m before × All (λ d. Among d before) (deps m) × DepsFirst deps (m ∷ before) ms

-- The runner goes through its list backwards.
abbrev pub backwards : List ℕ → List ℕ → List ℕ
backwards [] later = later
backwards (m ∷ ms) later = backwards ms (m ∷ later)

run_each-backwards :
    {S : Type 0} (call : ℕ → S → S) (ms later : List ℕ) (s : S)
    → each call (backwards ms later) s ≡ each call later (run_each call ms s)
unfolding run_each
run_each-backwards call [] later s = refl
run_each-backwards call (m ∷ ms) later s = run_each-backwards call ms (m ∷ later) s

pub two_phases :
    {S : Type 0} (f g : ℕ → S → S) (ms : List ℕ) (s : S)
    → run_each g ms (run_each f ms s) ≡ each g (backwards ms []) (each f (backwards ms []) s)
two_phases f g ms s = sym (
    run_each-backwards g ms [] (each f (backwards ms []) s)
    ∙ ap (run_each g ms) (run_each-backwards f ms [] s))

pub interleaved-backwards :
    {S : Type 0} (first then_call : ℕ → S → S) (ms later : List ℕ) (s : S)
    → each (λ m s. then_call m (first m s)) (backwards ms later) s
      ≡ each (λ m s. then_call m (first m s)) later (run_setup_interleaved first then_call ms s)
unfolding run_setup_interleaved
interleaved-backwards first then_call [] later s = refl
interleaved-backwards first then_call (m ∷ ms) later s =
    interleaved-backwards first then_call ms (m ∷ later) s

Among-backwards :
    (ms later : List ℕ) (x : ℕ) → Among x (backwards ms later) ↔ (Among x ms ⊎ Among x later)
Among-backwards [] later x = (λ a. inr a, λ s. elim s [ inl q ↦ absurd q | inr a ↦ a ])
Among-backwards (m ∷ ms) later x =
    let rest = Among-backwards ms (m ∷ later) x in
    (
      λ a. elim (rest.0 a) [
        | inl b ↦ inl (inr b)
        | inr b ↦ elim b [ inl e ↦ inl (inl e) | inr c ↦ inr c ]
      ],
      λ s.
          rest.1 (elim s [
            | inl b ↦ elim b [ inl e ↦ inr (inl e) | inr c ↦ inl c ]
            | inr b ↦ inr (inr b)
          ]),
    )

module _ (deps : ℕ → List ℕ) where
  DepsFirst-backwards :
      (ms later : List ℕ)
      → IsOrdered deps ms
      → DepsFirst deps ms later
      → DepsFirst deps [] (backwards ms later)
  DepsFirst-backwards [] later o h = h
  DepsFirst-backwards (m ∷ ms) later (n, behind, o) h =
      DepsFirst-backwards ms (m ∷ later) o (n, behind, h)

-- Modules in the order in which an application calls them: all that its own reach, each once, behind
-- those that it depends on.
pub record IsSequence (deps : ℕ → List ℕ) (modules sequence : List ℕ) : Type 0 where
  pub deps_first : DepsFirst deps [] sequence
  pub members : (x : ℕ) → Among x sequence ↔ Reach deps modules x

module _ (lib : TypeLists ℕ) (deps : ℕ → List ℕ) where
  pub Reach-lt :
      (n : ℕ)
      → ((m : ℕ) → Below n (deps m))
      → (modules : List ℕ) → Below n modules
      → (x : ℕ) → Reach deps modules x
      → x < n
  Reach-lt n below modules b x (root _ a) = b x a
  Reach-lt n below modules b x (dep m _ r a) = below m x a

  same_reach :
      (modules c : List ℕ)
      → IsClosure lib deps modules c
      → (x : ℕ) → Reach deps c x ↔ Reach deps modules x
  same_reach modules c v x =
      (Reach-mono deps c modules (λ y a. (v.members y).0 a) x, λ r. root x ((v.members x).1 r))

  pub IsSequence-backwards :
      (modules c runner : List ℕ)
      → IsClosure lib deps modules c
      → Extends deps [] c [] runner
      → IsSequence deps modules (backwards runner [])
  IsSequence-backwards modules c runner v x = record {
    deps_first = DepsFirst-backwards deps runner [] x.ordered tt;
    members = λ y.
        let there = Among-backwards runner [] y in
        (
          λ a. elim (there.0 a) [
            | inl b ↦ elim (x.added y b) [
              | inl q ↦ absurd q
              | inr (_, r) ↦ (same_reach modules c v y).0 r
            ]
            | inr q ↦ absurd q
          ],
          λ r. there.1 (inl (x.has y ((v.members y).1 r))),
        );
  }

module _ {S : Type 0} (lib : TypeLists ℕ) (code : ℕ → ModuleCode S) (n : ℕ)
    (below : (m : ℕ) → Below n (deps lib code m)) where
  runner_made :
      (modules c : List ℕ)
      → module_closure lib (deps lib code) n modules ≡ some c
      → module_runner lib code n modules ≡ lifecycle_order lib (deps lib code) n c
  unfolding module_runner
  runner_made modules c made = rw (made, module_runner)

  -- For modules numbered below `n` whose dependencies are too and have no cycle, there is a runner, and
  -- one sequence of all modules reached, each once and behind its dependencies, such that `runSetup`
  -- sets up the parameters of every module in this sequence, and after them every module in it;
  -- `runLoop` does the same, and an interleaved setup goes through it once, each module's parameters
  -- before the module.
  pub runner_follows :
      (modules : List ℕ) (rank : ℕ → ℕ)
      → Below n modules
      → Ranks (deps lib code) modules rank
      → (runner : List ℕ) × (sequence : List ℕ) × (module_runner lib code n modules ≡ order runner)
        × IsSequence (deps lib code) modules sequence
        × ((s : S)
            → (run_setup lib code runner s
                ≡ each
                    (λ m. (code m).setup)
                    sequence
                    (each (λ m. params_setup (code m)) sequence s))
              × (run_loop lib code runner s
                  ≡ each
                      (λ m. (code m).loop)
                      sequence
                      (each (λ m. params_loop (code m)) sequence s))
              × (run_setup_interleaved (λ m. params_setup (code m)) (λ m. (code m).setup) runner s
                  ≡ each (λ m s. (code m).setup (params_setup (code m) s)) sequence s))
  unfolding run_setup run_loop
  runner_follows modules rank b h =
      let (c, made, v) = module_closure-IsClosure lib (deps lib code) modules n below b in
      let (runner, ordered) =
        (lifecycle_order_decides (deps lib code) lib n c
            (λ m a. Reach-lt lib (deps lib code) n below modules b m ((v.members m).0 a)) below).1.1
          (rank, λ m d r a. h m d ((same_reach lib (deps lib code) modules c v m).0 r) a) in
      (
        runner,
        backwards runner [],
        runner_made modules c made ∙ ordered,
        IsSequence-backwards lib (deps lib code) modules c runner v
            (lifecycle_order-Extends (deps lib code) lib n c runner ordered),
        λ s. (
          two_phases (λ m. params_setup (code m)) (λ m. (code m).setup) runner s,
          two_phases (λ m. params_loop (code m)) (λ m. (code m).loop) runner s,
          sym (
              interleaved-backwards (λ m. params_setup (code m)) (λ m. (code m).setup) runner [] s),
        ),
      )
