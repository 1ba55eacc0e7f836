-- ===== src/Core/Search.antt =====
-- src/grevir/core/allocation/search.hpp: the budgeted backtracking search that gives each ownership
-- unit (a row of `eligible`) a candidate (a column).
pub mod Fits
pub mod Sound
pub mod Budget
pub mod Decides
use grevir_core.Common.{
  ℕ, zero, suc, ◌+◌, ◌-◌, ◌%◌, ◌^◌, Bool, true, false, List, length, get_or, set, replicate, ltb,
  ◌==◌, [], if◌then◌else◌,
}

-- What `visit` changes through its captured `result`.
pub record State : Type 0 where
  pub selected : List ℕ
  pub visited : ℕ
  pub exhausted : Bool

pub record SearchResult : Type 0 where
  pub selected : List ℕ
  pub visited : ℕ
  pub success : Bool
  pub exhausted : Bool

-- `eligible[u][c]`
abbrev pub eligible_at : List (List Bool) → ℕ → ℕ → Bool
eligible_at eligible u c = get_or (get_or eligible u []) c false

-- `result.selected[u]`
abbrev pub chosen : List ℕ → ℕ → ℕ
chosen selected u = get_or selected u 0

-- `SearchResult<R> result;` before the search.
abbrev pub blank : List (List Bool) → State
blank eligible = record { selected = replicate (length eligible) 0; visited = 0; exhausted = false }

-- What is returned: an unsuccessful search leaves no choice behind.
abbrev pub finish : List (List Bool) → Bool × State → SearchResult
finish eligible (success, s) = record {
  selected = if success then s.selected else replicate (length eligible) 0;
  visited = s.visited;
  success = success;
  exhausted = s.exhausted;
}

module _ (compatible : ℕ → ℕ → Bool) where
  -- The loop over `earlier`, which breaks off at the first incompatible choice; the first number
  -- says how many rounds are left.
  unfoldable pub allowed : ℕ → ℕ → ℕ → List ℕ → Bool
  allowed zero earlier c selected = true
  allowed (suc n) earlier c selected =
      if compatible c (chosen selected earlier) then allowed n (earlier + 1) c selected else false

module _ (eligible : List (List Bool)) (columns : ℕ) (compatible : ℕ → ℕ → Bool) (budget : ℕ) where
  -- The loop over the candidates `c` of unit `u`; `next` is the call of `visit` for unit `u + 1`.
  unfoldable pub tries : (State → Bool × State) → ℕ → ℕ → ℕ → State → Bool × State
  tries next u zero c s = (false, s)
  tries next u (suc n) c s = elim (eligible_at eligible u c) [
    | false ↦ tries next u n (c + 1) s
    | true ↦ elim (s.visited == budget) [
      | true ↦ (false, record s { exhausted = true })
      | false ↦
          let s1 = record s { visited = (s.visited + 1) % 2 ^ 32 } in
          elim (allowed compatible u 0 c s1.selected) [
            | false ↦ tries next u n (c + 1) s1
            | true ↦
                let (found, s2) = next (record s1 { selected = set s1.selected u c }) in
                elim found [
                  | true ↦ (true, s2)
                  | false ↦ elim s2.exhausted [
                    | true ↦ (false, s2)
                    | false ↦ tries next u n (c + 1) s2
                  ]
                ]
          ]
    ]
  ]

  -- `visit(visit, u)`, where `units - u` units are left.
  unfoldable pub visit : ℕ → ℕ → State → Bool × State
  visit zero u s = (true, s)
  visit (suc left) u s = tries (visit left (u + 1)) u columns 0 s

  unfoldable pub search : ℕ → SearchResult
  search units =
      if ltb (length eligible) units
      then record {
        selected = (blank eligible).selected;
        visited = (blank eligible).visited;
        success = false;
        exhausted = (blank eligible).exhausted;
      }
      else finish eligible (visit units 0 (blank eligible))
