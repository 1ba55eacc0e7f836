-- ===== src/Common/Unmarked.antt =====
-- How many numbers below a bound fail a test: the measure of a search that marks what it has seen.
use Prim.Native.Nat.{ℕ, zero, suc, ◌≤◌, ◌<◌}
use mathlib.Core.Path.{◌≡◌}
use mathlib.Core.Bool.{Bool, true, false}
use native.Mathlib.Omega.{arith}
use grevir_core.Common.Tests.{if◌then◌else◌}

abbrev pub unmarked : (ℕ → Bool) → ℕ → ℕ
unmarked c zero = 0
unmarked c (suc n) = if c n then unmarked c n else suc (unmarked c n)

pub unmarked-le : (c : ℕ → Bool) (n : ℕ) → unmarked c n ≤ n
unmarked-le c zero = omega arith
unmarked-le c (suc n) = ground (arith, unmarked-le c n)

pub marked_of_zero : (c : ℕ → Bool) (n m : ℕ) → unmarked c n ≤ 0 → m < n → c m ≡ true
marked_of_zero c zero m z h = elim h [ ]
marked_of_zero c (suc n) m z h = ground (arith, marked_of_zero c n m)

unmarked_mono :
    (c d : ℕ → Bool) (n : ℕ) → ((x : ℕ) → c x ≡ true → d x ≡ true) → unmarked d n ≤ unmarked c n
unmarked_mono c d zero keep = omega arith
unmarked_mono c d (suc n) keep = ground (arith, keep n, unmarked_mono c d n keep)

-- Marking one more number lowers the count.
pub unmarked_lt :
    (c d : ℕ → Bool) (n m : ℕ)
    → ((x : ℕ) → c x ≡ true → d x ≡ true)
    → m < n
    → c m ≡ false
    → d m ≡ true
    → unmarked d n < unmarked c n
unmarked_lt c d zero m keep h f t = elim h [ ]
unmarked_lt c d (suc n) m keep h f t =
    ground (arith, keep n, unmarked_lt c d n m keep, unmarked_mono c d n keep)
