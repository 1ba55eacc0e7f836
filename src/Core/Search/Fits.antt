-- ===== src/Core/Search/Fits.antt =====
-- What the search looks for: a candidate for each unit, eligible and compatible with those of the
-- units before it.
use native.Mathlib.Decide.{ℕ_discrete}
use grevir_core.Common.{
  ℕ, zero, suc, ◌+◌, ◌≤◌, ◌<◌, Bool, true, false, List, ◌≡◌, refl, arith, if◌then◌else◌,
}
use grevir_core.Core.Search.{eligible_at, chosen, allowed}

if_true : (b : Bool) {c : Bool} → (if b then c else false) ≡ true → (b ≡ true) × (c ≡ true)
if_true true h = (refl, h)
if_true false h = cc

module _ (eligible : List (List Bool)) (columns : ℕ) (compatible : ℕ → ℕ → Bool) where
  pub record FitsAt (choice : ℕ → ℕ) (u : ℕ) : Type 0 where
    pub in_range : choice u < columns
    pub is_eligible : eligible_at eligible u (choice u) ≡ true
    pub with_earlier : (v : ℕ) → v < u → compatible (choice u) (choice v) ≡ true

  -- The first `n` units have candidates that fit.
  abbrev pub Fits : (ℕ → ℕ) → ℕ → Type 0
  Fits choice n = (u : ℕ) → u < n → FitsAt choice u

  -- A choice that agrees up to `u` fits there alike.
  pub FitsAt-congr : (f g : ℕ → ℕ) (u : ℕ) → ((v : ℕ) → v ≤ u → f v ≡ g v) → FitsAt f u → FitsAt g u
  FitsAt-congr f g u same h =
      let here = same u (omega arith) in
      record {
        in_range = rw (← here) h.in_range;
        is_eligible = rw (← here) h.is_eligible;
        with_earlier = λ v lt. rw (← here, ← same v (omega arith)) (h.with_earlier v lt);
      }

module _ (compatible : ℕ → ℕ → Bool) where
  -- The loop over the earlier units succeeds exactly when all are compatible.
  pub allowed_sound :
      (n e c : ℕ) (selected : List ℕ)
      → allowed compatible n e c selected ≡ true
      → (v : ℕ) → e ≤ v
      → v < e + n
      → compatible c (chosen selected v) ≡ true
  unfolding allowed
  allowed_sound zero e c selected h v le lt = absurd (omega arith)
  allowed_sound (suc n) e c selected h v le lt =
      let first = if_true (compatible c (chosen selected e)) h in
      elim (ℕ_discrete e v) [
        | yes same ↦ rw (← same) first.0
        | no apart ↦ allowed_sound n (e + 1) c selected first.1 v (omega arith) (omega arith)
      ]

  pub allowed_complete :
      (n e c : ℕ) (selected : List ℕ)
      → ((v : ℕ) → e ≤ v → v < e + n → compatible c (chosen selected v) ≡ true)
      → allowed compatible n e c selected ≡ true
  unfolding allowed
  allowed_complete zero e c selected h = refl
  allowed_complete (suc n) e c selected h =
      rw (h e (omega arith) (omega arith))
        (allowed_complete n (e + 1) c selected (λ v le lt. h v (omega arith) (omega arith)))
