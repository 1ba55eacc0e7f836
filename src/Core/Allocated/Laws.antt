-- ===== src/Core/Allocated/Laws.antt =====
-- What an allocated application was accepted for, and the order of its setup.
use grevir_core.Common.{
  ℕ, true, false, ◌&&◌, Option, none, some, List, [], ◌∷◌, map, ◌≡◌, inl, inr, refl, sym, subst,
  ◌∙◌, arith, Among, Among-append_right, Bool-cases,
}
use grevir_core.Core.TypeLists.{TypeLists, Cats}
use grevir_core.Core.Claims.{Claim, has_conflict}
use grevir_core.Core.Pairs.{any_pair}
use grevir_core.Core.Checks.{Scans, application_conflict}
use grevir_core.Core.Checks.Laws.{all_claims, application_conflict_pairs}
use grevir_core.Core.Lifecycle.{Order, order, dependency_cycle, out_of_fuel, lifecycle_order}
use grevir_core.Core.Lifecycle.Ordered.{lifecycle_order-Extends}
use grevir_core.Core.Lifecycle.Fuel.{Below}
use grevir_core.Core.Module.{module_closure}
use grevir_core.Core.Module.Closure.{IsClosure, module_closure-IsClosure}
use grevir_core.Core.Application.Run.{
  each, backwards, IsSequence, IsSequence-backwards, Reach-lt, two_phases, interleaved-backwards,
}
use grevir_core.Core.Allocated.Asked.{Asks, joined-Asks}
use grevir_core.Core.Allocated.{
  NamedRequest, Allocate, BoundModule, RequestedModule, Assembled, timer_claims, deps_of_descriptor,
  bind, bound, joined_claims, joined_requests, owners_declared, with_runner, application_of,
  assemble, allocated_application, allocated_setup, allocated_loop,
}

module _ {S : Type 0} (cats : Cats) (requested : ℕ → Option (RequestedModule S))
    (code : ℕ → BoundModule S) (lib : TypeLists ℕ) (fuel : ℕ) (scans : Scans)
    (canonical : ℕ → ℕ) where
  abbrev module_of : Allocate S → ℕ → BoundModule S
  module_of a = bound cats requested code a

  abbrev pub bound_deps : Allocate S → ℕ → List ℕ
  bound_deps a m = (bound cats requested code a m).deps

  -- The claims of every parameter of every module.
  abbrev pub claims_of_all : Assembled S → List (List (List Claim))
  claims_of_all r = map (λ m. (bound cats requested code r.allocation m).claims) r.modules

  with_runner-some :
      (a : Allocate S) (modules : List ℕ) (o : Order) (r : Assembled S)
      → with_runner a modules o ≡ some r
      → (runner : List ℕ) × (o ≡ order runner)
        × (record { allocation = a; modules = modules; runner = runner } ≡ r)
  unfolding with_runner
  with_runner-some a modules (order runner) r h = (runner, refl, cc h)
  with_runner-some a modules dependency_cycle r h = cc
  with_runner-some a modules out_of_fuel r h = cc

  -- What the application was accepted for.
  record WasMade (a : Allocate S) (ds : List ℕ) (r : Assembled S) : Type 0 where
    allocated : a ≡ r.allocation
    closed : module_closure lib (bound_deps r.allocation) fuel ds ≡ some r.modules
    fitting : application_conflict scans canonical (claims_of_all r) ≡ false
    ordered : lifecycle_order lib (bound_deps r.allocation) fuel r.modules ≡ order r.runner

  module _ (backend : List NamedRequest → List Claim → Allocate S) where
    abbrev make : Allocate S → Option (List ℕ) → Option (Assembled S)
    make = application_of cats requested code lib fuel backend scans canonical

    application_of-WasMade :
        (a : Allocate S) (ds : List ℕ) (c : Option (List ℕ)) (r : Assembled S)
        → module_closure lib (bound_deps a) fuel ds ≡ c
        → make a c ≡ some r
        → WasMade a ds r
    unfolding application_of
    application_of-WasMade a ds none r made h = cc
    application_of-WasMade a ds (some modules) r made h =
        let claims = map (λ m. (bound cats requested code a m).claims) modules in
        elim (Bool-cases (application_conflict scans canonical claims)) [
          | inl e ↦ cc (rw e at h)
          | inr e ↦
              let (runner, p, q) = with_runner-some a modules _ r (rw e at h) in
              subst (WasMade a ds) q
                (record { allocated = refl; closed = made; fitting = e; ordered = p })
        ]

    assemble-WasMade :
        (ds : List ℕ) (claims : Option (List Claim)) (r : Assembled S)
        → assemble cats requested code lib fuel backend scans canonical ds claims ≡ some r
        → (asked : List Claim) × (claims ≡ some asked)
          × (let a = backend (joined_requests cats requested code ds) asked in
              (a.ok ≡ true) × WasMade a ds r)
    unfolding assemble
    assemble-WasMade ds none r h = cc
    assemble-WasMade ds (some asked) r h =
        let a = backend (joined_requests cats requested code ds) asked in
        elim (Bool-cases (owners_declared cats requested code ds && a.ok)) [
          | inr e ↦ cc (rw e at h)
          | inl e ↦ (
            asked,
            refl,
            (
              ground (arith, e),
              application_of-WasMade a ds (module_closure lib (bound_deps a) fuel ds) r refl
                  (rw e at h),
            ),
          )
        ]

    -- The setup and the loop of an accepted application, for the descriptors of its closure.
    pub record IsAllocated (ds : List ℕ) (r : Assembled S) : Type 0 where
      pub asked :
          (requests : List NamedRequest) × (claims : List Claim) × Asks cats requested code lib
            scans canonical ds requests claims
          × (backend requests claims ≡ r.allocation)
      pub accepted : r.allocation.ok ≡ true
      pub modules : IsClosure lib (bound_deps r.allocation) ds r.modules
      pub apart :
          any_pair (has_conflict canonical) (all_claims scans canonical (claims_of_all r)) ≡ false
      pub claimed :
          (m : ℕ) (q : RequestedModule S)
          → requested m ≡ some q
          → let claims = (bound cats requested code r.allocation m).claims in
            Among q.claims claims × Among (timer_claims r.allocation q.requests) claims
      pub depends :
          (m : ℕ) (q : RequestedModule S)
          → requested m ≡ some q
          → (d : ℕ) → Among d q.dependencies
          → Among d (bound_deps r.allocation m)
      pub existing :
          (m : ℕ) → requested m ≡ none → bound cats requested code r.allocation m ≡ code m
      pub follows :
          (sequence : List ℕ) × IsSequence (bound_deps r.allocation) ds sequence
          × ((s : S)
              → (allocated_setup cats requested code r s
                  ≡ each
                      (λ m s.
                        let b = bound cats requested code r.allocation m in
                        b.setup (b.params_setup s))
                      sequence
                      s)
                × (allocated_loop cats requested code r s
                    ≡ each
                        (λ m. (bound cats requested code r.allocation m).loop)
                        sequence
                        (each
                          (λ m. (bound cats requested code r.allocation m).params_loop)
                          sequence
                          s)))

    bound_bind :
        (a : Allocate S) (m : ℕ) (q : RequestedModule S)
        → requested m ≡ some q
        → bound cats requested code a m ≡ bind cats a q
    unfolding bound
    bound_bind a m q h = rw (h, bound) refl

    bound_claims :
        (a : Allocate S) (m : ℕ) (q : RequestedModule S)
        → requested m ≡ some q
        → let claims = (bound cats requested code a m).claims in
          Among q.claims claims × Among (timer_claims a q.requests) claims
    unfolding bind
    bound_claims a m q h =
        let impl = q.impl a in
        let more = q.claims ∷ timer_claims a q.requests ∷ [] in
        rw (bound_bind a m q h, cats.cat_lem impl.claims more)
          (
            Among-append_right q.claims impl.claims more (inl refl),
            Among-append_right (timer_claims a q.requests) impl.claims more (inr (inl refl)),
          )

    bound-dependencies :
        (a : Allocate S) (m : ℕ) (q : RequestedModule S)
        → requested m ≡ some q
        → (d : ℕ) → Among d q.dependencies
        → Among d (bound_deps a m)
    unfolding bind
    bound-dependencies a m q h d n =
        let own = (q.impl a).deps in
        subst (λ (b : BoundModule S). Among d b.deps) (sym (bound_bind a m q h))
          (rw (cats.cat_lem own q.dependencies) (Among-append_right d own q.dependencies n))

    bound-code :
        (a : Allocate S) (m : ℕ) → requested m ≡ none → bound cats requested code a m ≡ code m
    unfolding bound
    bound-code a m h = rw (h, bound) refl

    WasMade-IsAllocated :
        (ds : List ℕ) (claims : List Claim) (r : Assembled S)
        → ((m : ℕ) → Below fuel (bound_deps r.allocation m))
        → ((m : ℕ) → Below fuel ((code m).deps))
        → Below fuel ds
        → joined_claims cats requested code lib fuel ds ≡ some claims
        → let a = backend (joined_requests cats requested code ds) claims in
          a.ok ≡ true → WasMade a ds r → IsAllocated ds r
    unfolding allocated_setup allocated_loop
    WasMade-IsAllocated ds claims r below below_c b joined ok made =
        let deps = bound_deps r.allocation in
        let part = λ (m : ℕ). bound cats requested code r.allocation m in
        let (c, found, v) = module_closure-IsClosure lib deps ds fuel below b in
        let same : c ≡ r.modules = cc (found, made.closed) in
        record {
          asked = (
            joined_requests cats requested code ds,
            claims,
            joined-Asks cats requested code lib scans canonical fuel below_c ds claims b joined,
            made.allocated,
          );
          modules = subst (IsClosure lib deps ds) same v;
          depends = bound-dependencies r.allocation;
          existing = bound-code r.allocation;
          accepted = subst (λ (x : Allocate S). x.ok ≡ true) made.allocated ok;
          apart = sym (application_conflict_pairs scans canonical (claims_of_all r)) ∙ made.fitting;
          claimed = bound_claims r.allocation;
          follows = (
            backwards r.runner [],
            IsSequence-backwards lib deps ds r.modules r.runner
                (subst (IsClosure lib deps ds) same v)
                (lifecycle_order-Extends deps lib fuel r.modules r.runner made.ordered),
            λ s. (
              sym (
                  interleaved-backwards (λ m. (part m).params_setup) (λ m. (part m).setup) r.runner
                    [] s),
              two_phases (λ m. (part m).params_loop) (λ m. (part m).loop) r.runner s,
            ),
          );
        }

    -- Where `fuel` bounds the numbers of all modules: an allocated application that is accepted is that
    -- of all descriptors reached. The backend was asked with exactly the requests of the requested
    -- modules among them and with their fixed claims, and with the claims of all parameters of all
    -- modules that each existing module reaches; it succeeded. The modules are all that the descriptors
    -- reach by the dependencies that they have when bound, each once, and of all claims of all their
    -- parameters no two conflict. A requested module keeps its declared dependencies and has its fixed
    -- claims and those of its timer; an existing module is as its code says. There is one sequence of
    -- all modules reached, each once and behind its dependencies, in which the setup calls each module's
    -- parameters and then the module, and the loop first all parameters and then all modules.
    pub allocated_application-IsAllocated :
        (descriptors : List ℕ) (r : Assembled S)
        → ((a : Allocate S) (m : ℕ) → Below fuel (bound_deps a m))
        → ((m : ℕ) → Below fuel ((code m).deps))
        → ((d : ℕ) → Below fuel (deps_of_descriptor cats requested code d))
        → Below fuel descriptors
        → allocated_application cats requested code lib fuel backend scans canonical descriptors
          ≡ some r
        → (ds : List ℕ) × IsClosure lib (deps_of_descriptor cats requested code) descriptors ds
          × IsAllocated ds r
    unfolding allocated_application
    allocated_application-IsAllocated descriptors r below below_c below_d b h =
        let deps = deps_of_descriptor cats requested code in
        let (ds, found, v) = module_closure-IsClosure lib deps descriptors fuel below_d b in
        let (claims, joined, (ok, made)) =
          assemble-WasMade ds (joined_claims cats requested code lib fuel ds) r
            (rw (found, allocated_application) at h) in
        (
          ds,
          v,
          WasMade-IsAllocated ds claims r (below r.allocation) below_c
              (λ x m. Reach-lt lib deps fuel below_d descriptors b x ((v.members x).0 m)) joined ok
              made,
        )
