-- ===== src/Core/Instance/Once.antt =====
-- An application calls each module's instance once in its setup and once in its loop.
use grevir_core.Common.{ℕ, ◌≢◌, List, [], ◌∷◌, ◌≡◌, inl, inr, refl, sym, ap, subst, ◌∙◌, Among, All}
use grevir_core.Core.TypeLists.{TypeLists}
use grevir_core.Core.Lifecycle.{order}
use grevir_core.Core.Lifecycle.Ordered.{Reach}
use grevir_core.Core.Lifecycle.Fuel.{Below}
use grevir_core.Core.Lifecycle.Decides.{Ranks}
use grevir_core.Core.Module.{Parameter, ModuleCode, run_each, params_setup, params_loop}
use grevir_core.Core.Application.{deps, module_runner, run_setup, run_loop}
use grevir_core.Core.Application.Run.{each, DepsFirst, runner_follows}
use grevir_core.Core.Instance.{Statics, InstanceModule, module_instance}

-- A module that stands before is none of a sequence.
not_again :
    (deps : ℕ → List ℕ) (before ms : List ℕ) (x : ℕ)
    → DepsFirst deps before ms
    → Among x before
    → ¬ Among x ms
not_again deps before [] x h b m = m
not_again deps before (y ∷ ms) x (n, _, rest) b (inl e) = n (subst (λ z. Among z before) (sym e) b)
not_again deps before (y ∷ ms) x (n, _, rest) b (inr m) =
    not_again deps (y ∷ before) ms x rest (inr b) m

module _ {I W : Type 0} where
  -- The call leaves the instance of `x` as it is.
  abbrev pub Keeps : ℕ → (Statics I W → Statics I W) → Type 0
  Keeps x f = (s : Statics I W) → (f s).instance_of x ≡ s.instance_of x

  -- From `s` to `s'`, the instance of `x` had one call of `f` and no other change.
  abbrev pub HasOneCall : ℕ → (Statics I W → Statics I W) → Statics I W → Statics I W → Type 0
  HasOneCall x f s s' =
      (t : Statics I W) × (t.instance_of x ≡ s.instance_of x)
      × (s'.instance_of x ≡ (f t).instance_of x)

  params-Keeps :
      (x : ℕ) (pick : Parameter (Statics I W) → Statics I W → Statics I W)
      (ps : List (Parameter (Statics I W)))
      → All (λ p. Keeps x (pick p)) ps
      → Keeps x (run_each pick ps)
  unfolding run_each
  params-Keeps x pick [] h s = refl
  params-Keeps x pick (p ∷ ps) (h, rest) s = h (run_each pick ps s) ∙ params-Keeps x pick ps rest s

  each-Keeps :
      (x : ℕ) (f : ℕ → Statics I W → Statics I W) (ms : List ℕ)
      → ((m : ℕ) → Among m ms → Keeps x (f m))
      → Keeps x (each f ms)
  each-Keeps x f [] h s = refl
  each-Keeps x f (m ∷ ms) h s = each-Keeps x f ms (λ y a. h y (inr a)) (f m s) ∙ h m (inl refl) s

  each_once :
      (deps : ℕ → List ℕ) (x : ℕ) (f : ℕ → Statics I W → Statics I W)
      → ((m : ℕ) → m ≢ x → Keeps x (f m))
      → (before ms : List ℕ) (s : Statics I W) → DepsFirst deps before ms
      → Among x ms
      → HasOneCall x (f x) s (each f ms s)
  each_once deps x f h before [] s d a = absurd a
  each_once deps x f h before (m ∷ ms) s (n, d, rest) (inl e) = (
    s,
    refl,
    each-Keeps x f ms
          (λ y a. h y (λ q.
            not_again deps (m ∷ before) ms m rest (inl refl)
              (subst (λ z. Among z ms) (q ∙ sym e) a)))
          (f m s)
        ∙ ap (λ y. (f y s).instance_of x) e,
  )
  each_once deps x f h before (m ∷ ms) s (n, d, rest) (inr a) =
      let (t, p, q) = each_once deps x f h (m ∷ before) ms (f m s) rest a in
      let other = λ (e : m ≡ x).
        not_again deps (m ∷ before) ms m rest (inl refl) (subst (λ z. Among z ms) (sym e) a) in
      (t, p ∙ h m other s, q)

module _ {I W : Type 0} (modules : ℕ → InstanceModule I W) where
  abbrev pub code : ℕ → ModuleCode (Statics I W)
  code m = module_instance m (modules m)

  -- No parameter, and no module but `x`, changes the instance of `x`.
  pub record IsPrivate (x : ℕ) : Type 0 where
    pub params_setup_keeps : (m : ℕ) → All (λ p. Keeps x (p.setup)) (modules m).params
    pub params_loop_keeps : (m : ℕ) → All (λ p. Keeps x (p.loop)) (modules m).params
    pub setup_keeps : (m : ℕ) → m ≢ x → Keeps x ((modules m).instance_setup m)
    pub loop_keeps : (m : ℕ) → m ≢ x → Keeps x ((modules m).instance_loop m)

  -- For modules numbered below `n` whose dependencies are too and have no cycle, there is a runner. Take
  -- a module reached whose instance no parameter and no other module's callback changes. Then
  -- `runSetup` changes this instance by exactly one call of its `instanceSetup`, on the instance as it
  -- was before, and `runLoop` by exactly one call of its `instanceLoop`.
  pub instances_called_once :
      (lib : TypeLists ℕ) (n : ℕ)
      → ((m : ℕ) → Below n (deps lib code m))
      → (roots : List ℕ) (rank : ℕ → ℕ) → Below n roots
      → Ranks (deps lib code) roots rank
      → (x : ℕ) → Reach (deps lib code) roots x
      → IsPrivate x
      → (runner : List ℕ) × (module_runner lib code n roots ≡ order runner)
        × ((s : Statics I W)
            → HasOneCall x ((modules x).instance_setup x) s (run_setup lib code runner s)
              × HasOneCall x ((modules x).instance_loop x) s (run_loop lib code runner s))
  unfolding module_instance params_setup params_loop
  instances_called_once lib n below roots rank b h x r alone =
      let (runner, sequence, made, v, runs) = runner_follows lib code n below roots rank b h in
      (
        runner,
        made,
        λ s.
            let (setup, loop, _) = runs s in
            let a = (v.members x).1 r in
            let first = each (λ m. params_setup (code m)) sequence s in
            let second = each (λ m. params_loop (code m)) sequence s in
            let (t, p, q) =
              each_once (deps lib code) x (λ m. (modules m).instance_setup m) alone.setup_keeps []
                sequence first v.deps_first a in
            let (u, p', q') =
              each_once (deps lib code) x (λ m. (modules m).instance_loop m) alone.loop_keeps []
                sequence second v.deps_first a in
            (
              (
                t,
                p
                    ∙ each-Keeps x (λ m. params_setup (code m)) sequence
                        (λ m _.
                          params-Keeps x (λ p. p.setup) (modules m).params
                            (alone.params_setup_keeps m))
                        s,
                ap (λ e. e.instance_of x) setup ∙ q,
              ),
              (
                u,
                p'
                    ∙ each-Keeps x (λ m. params_loop (code m)) sequence
                        (λ m _.
                          params-Keeps x (λ p. p.loop) (modules m).params
                            (alone.params_loop_keeps m))
                        s,
                ap (λ e. e.instance_of x) loop ∙ q',
              ),
            ),
      )
