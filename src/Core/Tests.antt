-- ===== src/Core/Tests.antt =====
-- The core library on concrete inputs.
use grevir_core.Common.{
  ℕ, ◌≤◌, Bool, true, false, not, List, [], ◌∷◌, ◌≡◌, refl, arith, replicate, ◌==◌, ◌↔◌,
}
use grevir_core.Core.Search.{chosen, search, visit, tries, allowed}
use grevir_core.Core.Search.Fits.{Fits}
use grevir_core.Core.Search.Decides.{
  search_sound, search_complete, search_within_budget, search_decides,
}

-- Two units: the first takes either candidate, the second only candidate 0. The first choice tried
-- has to be taken back.
abbrev table : List (List Bool)
table = (true ∷ true ∷ []) ∷ (true ∷ false ∷ []) ∷ []

-- Both units can only have candidate 0.
abbrev narrow : List (List Bool)
narrow = (true ∷ false ∷ []) ∷ (true ∷ false ∷ []) ∷ []

abbrev apart : ℕ → ℕ → Bool
apart a b = not (a == b)

search-table :
    search table 2 apart 10 2
    ≡ record { selected = 1 ∷ 0 ∷ []; visited = 4; success = true; exhausted = false }
unfolding search visit tries allowed
search-table = refl

search-table_short_budget :
    search table 2 apart 3 2
    ≡ record { selected = 0 ∷ 0 ∷ []; visited = 3; success = false; exhausted = true }
unfolding search visit tries allowed
search-table_short_budget = refl

search-table_won : (search table 2 apart 10 2).success ≡ true
unfolding search visit tries allowed
search-table_won = refl

search-narrow_failed : (search narrow 2 apart 10 2).success ≡ false
unfolding search visit tries allowed
search-narrow_failed = refl

search-narrow_calm : (search narrow 2 apart 10 2).exhausted ≡ false
unfolding search visit tries allowed
search-narrow_calm = refl

search_sound_example : Fits table 2 apart (chosen (search table 2 apart 10 2).selected) 2
search_sound_example = search_sound table 2 apart 10 2 search-table_won

search_complete_example : ¬ Fits narrow 2 apart (λ u. 0) 2
search_complete_example =
    search_complete narrow 2 apart 10 2 (omega arith) search-narrow_failed search-narrow_calm
      (λ u. 0)

search_within_budget_example :
    let r = search table 2 apart 3 2 in
    (r.visited ≤ 3)
    × (r.exhausted ≡ true → (r.success ≡ false) × (r.visited ≡ 3))
    × (r.success ≡ false → r.selected ≡ replicate 2 0)
search_within_budget_example = search_within_budget table 2 apart 3 2 (omega arith)

search_decides_example :
    ((search table 2 apart 6 2).exhausted ≡ false)
    × (((search table 2 apart 6 2).success ≡ true)
        ↔ ∥ ((choice : ℕ → ℕ) × Fits table 2 apart choice 2) ∥₁)
search_decides_example = search_decides table 2 apart 6 2 (omega arith) (omega arith) (omega arith)
