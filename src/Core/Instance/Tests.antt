-- ===== src/Core/Instance/Tests.antt =====
-- Two modules with instances; the first one depends on the second. An instance counts its calls, and the
-- world counts the calls of parameters.
use grevir_core.Common.{
  ℕ, zero, suc, ◌+◌, none, List, [], ◌∷◌, ◌≡◌, refl, arith, All, inl, ◌==◌, ==_iff, ◌≢◌,
  if◌then◌else◌,
}
use grevir_core.Core.Samples.{lists}
use grevir_core.Core.Lifecycle.{order}
use grevir_core.Core.Lifecycle.Ordered.{root}
use grevir_core.Core.Lifecycle.Fuel.{Below}
use grevir_core.Core.Lifecycle.Decides.{Ranks}
use grevir_core.Core.Module.{run_each, params_setup, module_deps, deps_from_params, deps_of}
use grevir_core.Core.Application.{deps, module_runner, run_setup, run_loop}
use grevir_core.Core.Instance.{Statics, InstanceModule, module_instance}
use grevir_core.Core.Instance.Once.{code, Keeps, HasOneCall, IsPrivate, instances_called_once}

-- A callback's change of the instance that it is called on, from that instance and the world.
abbrev on_this : (ℕ → ℕ → ℕ) → ℕ → Statics ℕ ℕ → Statics ℕ ℕ
on_this f m s = record s {
  instance_of = λ x. if x == m then f (s.instance_of m) s.world else s.instance_of x;
}

abbrev counter : List ℕ → InstanceModule ℕ ℕ
counter ds = record {
  params =
      record { setup = λ s. record s { world = suc (s.world) }; loop = λ s. s; deps = none } ∷ [];
  implicit_deps = ds;
  instance_setup = on_this (λ i w. 100 + i + w);
  instance_loop = on_this (λ i w. suc i);
}

abbrev counters : ℕ → InstanceModule ℕ ℕ
counters zero = counter (1 ∷ [])
counters (suc m) = counter []

abbrev fresh : Statics ℕ ℕ
fresh = record { instance_of = λ x. 7; world = 0 }

setup-first : (run_setup lists (code counters) (0 ∷ 1 ∷ []) fresh).instance_of 0 ≡ 109
unfolding run_setup run_each params_setup module_instance
setup-first = refl

setup-other : (run_setup lists (code counters) (0 ∷ 1 ∷ []) fresh).instance_of 2 ≡ 7
unfolding run_setup run_each params_setup module_instance
setup-other = refl

counters-Below : (m : ℕ) → Below 2 (deps lists (code counters) m)
unfolding module_deps deps_from_params deps_of module_instance
counters-Below zero x a = ground arith
counters-Below (suc m) x a = absurd a

first-Below : Below 2 (0 ∷ [])
first-Below x a = ground arith

abbrev ranks : ℕ → ℕ
ranks zero = 1
ranks (suc m) = 0

counters-Ranks : Ranks (deps lists (code counters)) (0 ∷ []) ranks
unfolding module_deps deps_from_params deps_of module_instance
counters-Ranks zero d r a = ground arith
counters-Ranks (suc m) d r a = absurd a

on_this-Keeps : (f : ℕ → ℕ → ℕ) (m x : ℕ) → m ≢ x → Keeps x (on_this f m)
on_this-Keeps f m x n s = ground (arith, ==_iff x m, n)

setup-Keeps : (m : ℕ) → m ≢ 0 → Keeps 0 ((counters m).instance_setup m)
setup-Keeps zero n = on_this-Keeps (λ i w. 100 + i + w) 0 0 n
setup-Keeps (suc m) n = on_this-Keeps (λ i w. 100 + i + w) (suc m) 0 n

loop-Keeps : (m : ℕ) → m ≢ 0 → Keeps 0 ((counters m).instance_loop m)
loop-Keeps zero n = on_this-Keeps (λ i w. suc i) 0 0 n
loop-Keeps (suc m) n = on_this-Keeps (λ i w. suc i) (suc m) 0 n

params_setup-Keeps : (m : ℕ) → All (λ p. Keeps 0 (p.setup)) (counters m).params
params_setup-Keeps zero = ((λ s. refl), tt)
params_setup-Keeps (suc m) = ((λ s. refl), tt)

params_loop-Keeps : (m : ℕ) → All (λ p. Keeps 0 (p.loop)) (counters m).params
params_loop-Keeps zero = ((λ s. refl), tt)
params_loop-Keeps (suc m) = ((λ s. refl), tt)

first-IsPrivate : IsPrivate counters 0
first-IsPrivate = record {
  params_setup_keeps = params_setup-Keeps;
  params_loop_keeps = params_loop-Keeps;
  setup_keeps = setup-Keeps;
  loop_keeps = loop-Keeps;
}

instances_called_once_example :
    (runner : List ℕ) × (module_runner lists (code counters) 2 (0 ∷ []) ≡ order runner)
    × ((s : Statics ℕ ℕ)
        → HasOneCall 0 ((counters 0).instance_setup 0) s (run_setup lists (code counters) runner s)
          × HasOneCall 0 ((counters 0).instance_loop 0) s (run_loop lists (code counters) runner s))
instances_called_once_example =
    instances_called_once counters lists 2 counters-Below (0 ∷ []) ranks first-Below counters-Ranks
      0 (root 0 (inl refl)) first-IsPrivate
