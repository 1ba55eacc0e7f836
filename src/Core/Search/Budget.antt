-- ===== src/Core/Search/Budget.antt =====
-- The budget bounds the visits, and one that covers the whole tree of candidates never ends first.

use grevir_core.Common.{
  ℕ, zero, suc, ◌+◌, ◌%◌, ◌^◌, ◌≤◌, ◌<◌, Bool, true, false, List, ◌≡◌, arith, set, ◌==◌,
}
use grevir_core.Core.Search.{State, tries, visit}

-- The most visits that `n` candidates take, if each leads to at most `k` more.
abbrev pub tries_cost : ℕ → ℕ → ℕ
tries_cost k zero = 0
tries_cost k (suc n) = suc k + tries_cost k n

-- The most visits that this many units with this many candidates take.
abbrev pub cost : ℕ → ℕ → ℕ
cost columns zero = 0
cost columns (suc left) = tries_cost (cost columns left) columns

module _ (eligible : List (List Bool)) (columns : ℕ) (compatible : ℕ → ℕ → Bool) (budget : ℕ) where
  pub record Spends (k : ℕ) (s s' : State) (found : Bool) : Type 0 where
    pub within : s'.visited ≤ budget
    pub costs : s'.visited ≤ s.visited + k
    pub stops : s'.exhausted ≡ true → budget < s.visited + k
    pub lost : s'.exhausted ≡ true → (found ≡ false) × (s'.visited ≡ budget)

  -- A search may start here.
  pub record IsFresh (s : State) : Type 0 where
    pub affordable : s.visited ≤ budget
    pub running : s.exhausted ≡ false

  module _ (word : budget < 2 ^ 32) (u k : ℕ) (next : State → Bool × State)
      (after : (s : State) → IsFresh s → Spends k s (next s).1 (next s).0) where
    counted :
        (s : State)
        → IsFresh s
        → (s.visited == budget) ≡ false
        → (s.visited + 1) % 2 ^ 32 ≡ s.visited + 1
    counted s h more = ground (arith, h)

    tries-Spends :
        (n c : ℕ) (s : State)
        → IsFresh s
        → let r = tries eligible columns compatible budget next u n c s in
          Spends (tries_cost k n) s r.1 r.0
    unfolding tries
    tries-Spends zero c s h = ground (arith, h)
    tries-Spends (suc n) c s h =
        let s1 = record s { visited = (s.visited + 1) % 2 ^ 32 } in
        let sin = record s1 { selected = set s.selected u c } in
        ground (
          arith,
          h,
          counted s h,
          after sin,
          tries-Spends n (c + 1) s,
          tries-Spends n (c + 1) s1,
          tries-Spends n (c + 1) (next sin).1,
        )

  pub visit-Spends :
      (word : budget < 2 ^ 32) (left u : ℕ) (s : State)
      → IsFresh s
      → let r = visit eligible columns compatible budget left u s in
        Spends (cost columns left) s r.1 r.0
  unfolding visit
  visit-Spends word zero u s h = ground (arith, h)
  visit-Spends word (suc left) u s h =
      tries-Spends word u (cost columns left)
        (visit eligible columns compatible budget left (u + 1))
        (λ s' h'. visit-Spends word left (u + 1) s' h') columns 0 s h
