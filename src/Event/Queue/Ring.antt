-- ===== src/Event/Queue/Ring.antt =====
-- The records from `head` on, going round at `capacity`: reads and writes of the ring as a list.
use native.Mathlib.Nat.{add-zero, mod-add-mod, mod-eq_of_lt, mod-eq-sub-mod, mod-lt}
use native.Mathlib.Decide.{dec_lt}
use grevir_core.Common.{
  ℕ, zero, suc, ◌+◌, ◌-◌, ◌%◌, ◌≤◌, ◌<◌, ◌≡◌, refl, sym, ap, ap₂, ◌∙◌, ◌≢◌, List, [], ◌∷◌, ◌++◌,
  arith, length, get_or, set, get_or-set_self, get_or-set_ne,
}
use grevir_core.Event.Queue.{DispatchRecord, null_record}

module _ (records : List DispatchRecord) (capacity : ℕ) where
  -- The `n` records whose indices are `h`, `h + 1`, … modulo `capacity`.
  abbrev pub live : ℕ → ℕ → List DispatchRecord
  live h zero = []
  live h (suc n) = get_or records (h % capacity) null_record ∷ live (h + 1) n

  pub length-live : (h n : ℕ) → length (live h n) ≡ n
  length-live h zero = refl
  length-live h (suc n) = ap suc (length-live (h + 1) n)

  -- Only the index modulo `capacity` counts.
  pub live-congr : (h k n : ℕ) → h % capacity ≡ k % capacity → live h n ≡ live k n
  live-congr h k zero e = refl
  live-congr h k (suc n) e =
      ap₂ ◌∷◌ (ap (λ i. get_or records i null_record) e) (live-congr (h + 1) (k + 1) n shift)
    where
      shift : (h + 1) % capacity ≡ (k + 1) % capacity
      shift =
          sym (mod-add-mod h capacity 1) ∙ ap (λ t. (t + 1) % capacity) e ∙ mod-add-mod k capacity 1

-- Fewer than `capacity` steps round the ring do not come back to the start.
add-mod-ne : {capacity h k : ℕ} → h < capacity → suc k < capacity → (h + suc k) % capacity ≢ h
add-mod-ne {capacity} {h} {k} hh hk = elim (dec_lt (h + suc k) capacity) [
  | yes p ↦ omega (arith, mod-eq_of_lt p)
  | no p ↦ omega (
    arith,
    mod-eq-sub-mod {n = h + suc k} {m = capacity} (omega arith),
    mod-eq_of_lt {n = h + suc k - capacity} {m = capacity} (omega arith),
  )
]

steps_apart : {capacity : ℕ} (h k : ℕ) → suc k < capacity → (h + suc k) % capacity ≢ h % capacity
steps_apart {capacity} h k hk e =
    add-mod-ne {h = h % capacity} (mod-lt h (omega arith)) hk (mod-add-mod h capacity (suc k) ∙ e)

-- A write just past the window extends it by that record.
pub live-set :
    (records : List DispatchRecord) (capacity : ℕ) (v : DispatchRecord) (n h i : ℕ)
    → capacity ≤ length records
    → n < capacity
    → i ≡ (h + n) % capacity
    → live (set records i v) capacity h (suc n) ≡ live records capacity h n ++ v ∷ []
live-set records capacity v zero h i room hn e =
    rw (e, add-zero)
      (ap (λ r. r ∷ []) (get_or-set_self records (h % capacity) v null_record (index_lt h)))
  where
    index_lt : (k : ℕ) → k % capacity < length records
    index_lt k = omega (arith, mod-lt k {m = capacity} (omega arith))
live-set records capacity v (suc n) h i room hn e =
    ap₂ ◌∷◌ (get_or-set_ne records v null_record (λ p. steps_apart h n hn (sym e ∙ p))) (
      live-set records capacity v n (h + 1) i room (omega arith)
        (e ∙ ap (λ t. t % capacity) (omega arith)))
