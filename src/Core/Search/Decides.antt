-- ===== src/Core/Search/Decides.antt =====
-- What a caller of `search` may rely on.
use mathlib.Core.Logic.{∥∥₁_elim}
use mathlib.Core.HLevel.{⊥_prop}
use grevir_core.Common.{
  ℕ, ◌^◌, ◌≤◌, ◌<◌, Bool, true, false, List, ◌≡◌, refl, arith, length, replicate, length-replicate,
  ◌↔◌, Bool-cases, inl, inr, sym, ap, ◌∙◌,
}
use grevir_core.Core.Search.{SearchResult, State, chosen, finish, blank, visit, search}
use grevir_core.Core.Search.Fits.{Fits}
use grevir_core.Core.Search.Sound.{Ends, visit-Ends}
use grevir_core.Core.Search.Budget.{Spends, cost, visit-Spends}

module _ (eligible : List (List Bool)) (columns : ℕ) (compatible : ℕ → ℕ → Bool)
    (budget units : ℕ) where
  abbrev result : SearchResult
  result = search eligible columns compatible budget units

  abbrev visited_all : Bool × State
  visited_all = visit eligible columns compatible budget units 0 (blank eligible)

  whole :
      units ≤ length eligible
      → Ends eligible columns compatible budget units 0 (blank eligible) visited_all.1 visited_all.0
  whole h =
      visit-Ends eligible columns compatible budget units 0 units (blank eligible) (omega arith)
        (rw (length-replicate {A = ℕ} (length eligible) 0) h)

  spent :
      budget < 2 ^ 32
      → Spends eligible columns compatible budget
          (cost columns units)
          (blank eligible)
          visited_all.1
          visited_all.0
  spent word =
      visit-Spends eligible columns compatible budget word units 0 (blank eligible)
        (record { affordable = omega arith; running = refl })

  search-finish : units ≤ length eligible → result ≡ finish eligible visited_all
  unfolding search
  search-finish h = ground arith

  search_of_success : result.success ≡ true → units ≤ length eligible
  unfolding search
  search_of_success won = ground arith

  -- A successful search gives every unit an eligible candidate below `C` that is compatible with the
  -- candidate of every earlier unit.
  pub search_sound :
      result.success ≡ true → Fits eligible columns compatible (chosen result.selected) units
  search_sound won =
      let h = search_of_success won in
      let same = search-finish h in
      let found : visited_all.0 ≡ true = sym (ap (λ r. r.success) same) ∙ won in
      rw (same, found) ((whole h).finds found (λ u lt. absurd (omega arith)))

  -- Where there are rows for all units, a search that fails without exhausting its budget shows that
  -- no choice of candidates fits.
  pub search_complete :
      units ≤ length eligible
      → result.success ≡ false
      → result.exhausted ≡ false
      → (choice : ℕ → ℕ) → ¬ Fits eligible columns compatible choice units
  search_complete h failed calm choice good =
      let same = search-finish h in
      (whole h).refutes (sym (ap (λ r. r.success) same) ∙ failed)
        (sym (ap (λ r. r.exhausted) same) ∙ calm) choice good (λ v lt. absurd (omega arith))

  -- With a budget of 32 bits the search visits at most as many candidates as the budget says, it is
  -- exhausted only when it fails with the whole budget spent, and a failed search returns zeros.
  pub search_within_budget :
      budget < 2 ^ 32
      → (result.visited ≤ budget)
        × (result.exhausted ≡ true → (result.success ≡ false) × (result.visited ≡ budget))
        × (result.success ≡ false → result.selected ≡ replicate (length eligible) 0)
  unfolding search
  search_within_budget word = ground (arith, spent word)

  -- With a 32-bit budget that covers the whole tree of candidates, and rows for all units, the search
  -- is never exhausted and succeeds exactly if some choice of candidates fits.
  pub search_decides :
      budget < 2 ^ 32
      → units ≤ length eligible
      → cost columns units ≤ budget
      → (result.exhausted ≡ false)
        × ((result.success ≡ true)
            ↔ ∥ ((choice : ℕ → ℕ) × Fits eligible columns compatible choice units) ∥₁)
  search_decides word h enough =
      let same = search-finish h in
      let calm : result.exhausted ≡ false = ground (arith, spent word, same) in
      (
        calm,
        (
          (λ won. ∣ (chosen result.selected, search_sound won) ∣₁),
          λ some_choice. elim (Bool-cases result.success) [
            | inl won ↦ won
            | inr failed ↦ absurd (
                ∥∥₁_elim some_choice ⊥_prop
                  (λ (choice, good). search_complete h failed calm choice good))
          ],
        ),
      )
