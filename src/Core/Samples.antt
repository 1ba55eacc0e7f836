-- ===== src/Core/Samples.antt =====
-- Versions of the base library's operations, for concrete runs.
use grevir_core.Common.{
  ℕ, Bool, true, false, ◌||◌, List, [], ◌∷◌, ◌++◌, ◌≡◌, ◌↔◌, inl, inr, refl, arith, Among, ◌==◌,
  ==_iff, if◌then◌else◌, Bool-cases,
}
use grevir_core.Core.TypeLists.{TypeLists, Cats}
use grevir_core.Core.Pairs.{any, any_pair}
use grevir_core.Core.Checks.{Scans}

-- A version of the base library's lists of types, for lists of numbers.
abbrev pub holds : List ℕ → ℕ → Bool
holds [] a = false
holds (x ∷ xs) a = x == a || holds xs a

abbrev pub without : List ℕ → List ℕ → List ℕ
without [] ys = []
without (x ∷ xs) ys = if holds ys x then without xs ys else x ∷ without xs ys

pub holds_iff : (xs : List ℕ) (a : ℕ) → (holds xs a ≡ true) ↔ Among a xs
holds_iff [] a = ground arith
holds_iff (x ∷ xs) a = ground (arith, ==_iff x a, holds_iff xs a)

pub without_iff : (xs ys : List ℕ) (a : ℕ) → Among a (without xs ys) ↔ (Among a xs × ¬ Among a ys)
without_iff [] ys a = ground arith
without_iff (x ∷ xs) ys a = elim (Bool-cases (holds ys x)) [
  | inl e ↦ rw e (ground (arith, without_iff xs ys a, holds_iff ys x, holds_iff ys a))
  | inr e ↦ rw e (ground (arith, without_iff xs ys a, holds_iff ys x, holds_iff ys a))
]

abbrev pub lists : TypeLists ℕ
lists = record {
  cat = λ xs ys. xs ++ ys;
  catr = λ xs ys. ys ++ xs;
  contains = holds;
  remove_all = without;
  cat_lem = λ xs ys. refl;
  catr_lem = λ xs ys. refl;
  contains_iff = holds_iff;
  remove_all_iff = without_iff;
}

-- A version of the base library's scanners.
abbrev pub scans : Scans
scans = record {
  scan = λ test v ts. any (test v) ts;
  full_scan = λ test ts. any_pair test ts;
  scan_lem = λ test v ts. refl;
  full_scan_lem = λ test s ts. refl;
}

abbrev pub cats : Cats
cats = record { cat = λ xs ys. xs ++ ys; cat_lem = λ xs ys. refl }
