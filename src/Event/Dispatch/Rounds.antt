-- ===== src/Event/Dispatch/Rounds.antt =====
-- Rounds of posts with a call of `dispatch` behind each, and the records that a trace tells of.
use grevir_core.Common.{ℕ, ◌+◌, false, List, [], ◌∷◌, ◌++◌, map, ◌≡◌, refl, ap}
use grevir_core.Event.Queue.{Spec, entry}
use grevir_core.Event.Dispatch.{
  Action, post_event, Observed, called, invoked, dispatched, Call, single, dispatch_by,
}
use grevir_core.Event.Dispatch.Refine.{as_stored}
use grevir_core.Event.Dispatch.Stop.{stops}

-- The records that were invoked.
abbrev pub served : {Token R : Type 0} → List (Observed Token R) → List R
served [] = []
served (called a r ∷ rest) = served rest
served (invoked r ∷ rest) = r ∷ served rest
served (dispatched n ∷ rest) = served rest

-- Posts of these events, and then other calls.
abbrev pub posting : {Token : Type 0} → List ℕ → List (Call Token) → List (Call Token)
posting [] calls = calls
posting (e ∷ es) calls = single (post_event e) ∷ posting es calls

-- Posts, and then a call of `dispatch` with its budget and the calls between its locked blocks.
pub record Round (Token : Type 0) : Type 0 where
  pub posts : List ℕ
  pub budget : ℕ
  pub gaps : ℕ → List (Action Token)

abbrev pub rounds : {Token : Type 0} → Token → List (Round Token) → List (Call Token)
rounds current [] = []
rounds current (r ∷ more) =
    posting r.posts (dispatch_by r.budget current r.gaps ∷ rounds current more)

abbrev pub total_budget : {Token : Type 0} → List (Round Token) → ℕ
total_budget [] = 0
total_budget (r ∷ more) = r.budget + total_budget more

-- Nothing calls `stop` during these calls of `dispatch`.
abbrev pub NeverStopped : {Token : Type 0} → List (Round Token) → Type 0
NeverStopped [] = Unit
NeverStopped (r ∷ more) = ((k : ℕ) → stops (r.gaps k) ≡ false) × NeverStopped more

pub served-append :
    {Token R : Type 0} (xs ys : List (Observed Token R))
    → served (xs ++ ys) ≡ served xs ++ served ys
served-append [] ys = refl
served-append (called a r ∷ xs) ys = served-append xs ys
served-append (invoked r ∷ xs) ys = ap (λ rs. r ∷ rs) (served-append xs ys)
served-append (dispatched n ∷ xs) ys = served-append xs ys

pub served-as_stored :
    {Token : Type 0} (spec : Spec) (xs : List (Observed Token ℕ))
    → served (map (as_stored spec) xs) ≡ map (entry spec) (served xs)
served-as_stored spec [] = refl
served-as_stored spec (called a r ∷ xs) = served-as_stored spec xs
served-as_stored spec (invoked r ∷ xs) = ap (λ rs. entry spec r ∷ rs) (served-as_stored spec xs)
served-as_stored spec (dispatched n ∷ xs) = served-as_stored spec xs
