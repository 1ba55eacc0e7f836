-- ===== src/Interrupt/Decode/Checksum.antt =====
-- The checksum of a record is the same for an `unsigned long` of 32 and of 64 bits, and the one that the
-- host tool computes.
use native.Mathlib.Nat.{div-add-mod, add-mul-mod_self_left, mod-eq_of_lt, mod-lt, pow-suc}
use grevir_core.Common.{
  ℕ, zero, suc, ◌+◌, ◌*◌, ◌/◌, ◌%◌, ◌^◌, ◌≤◌, ◌<◌, List, [], ◌∷◌, ◌≡◌, ◌⊎◌, inl, inr, refl, ap, ◌∙◌,
  arith,
}
use grevir_core.Interrupt.Probe.{xor, checksum_from}
use grevir_core.Interrupt.Decode.{masked_checksum}

-- The lowest bit, and the rest.
double_mod : (k a : ℕ) → 0 < k → a % (2 * k) ≡ a % 2 + 2 * (a / 2 % k)
double_mod k a h =
    let q = a / 2 / k in
    let t = a % 2 + 2 * (a / 2 % k) in
    let whole : a ≡ t + 2 * k * q = grind (arith, div-add-mod (a / 2) k) in
    let small : t < 2 * k = omega (arith, mod-lt (a / 2) h) in
    ap (λ (x : ℕ). x % (2 * k)) whole ∙ add-mul-mod_self_left t (2 * k) q ∙ mod-eq_of_lt small

pow_suc : (n : ℕ) → 2 ^ suc n ≡ 2 * 2 ^ n
pow_suc n = omega (arith, pow-suc 2 n)

pow_pos : (n : ℕ) → 0 < 2 ^ n
pow_pos zero = omega arith
pow_pos (suc n) = omega (arith, pow_suc n, pow_pos n)

-- The low bits of a wider `^` are those of the narrower one.
xor_low : (n m a b : ℕ) → n ≤ m → xor m a b % 2 ^ n ≡ xor n (a % 2 ^ n) b
unfolding xor
xor_low zero m a b h = omega arith
xor_low (suc n) zero a b h = elim h [ ]
xor_low (suc n) (suc m) a b h =
    let x = xor m (a / 2) (b / 2) in
    let sum = (a % 2 + b % 2) % 2 + 2 * x in
    let low = double_mod (2 ^ n) a (pow_pos n) in
    let high = double_mod (2 ^ n) sum (pow_pos n) in
    let rest = xor_low n m (a / 2) (b / 2) (omega arith) in
    let half : a % 2 ^ suc n / 2 ≡ a / 2 % 2 ^ n = rw (pow_suc n) (omega arith) in
    let bit : a % 2 ^ suc n % 2 ≡ a % 2 = rw (pow_suc n) (omega arith) in
    let halved : sum / 2 ≡ x = omega arith in
    rw (half, bit, pow_suc n) (high ∙ rw (halved, rest) (omega arith))

-- One round.
round_low :
    (width a b : ℕ)
    → (width ≡ 32) ⊎ (width ≡ 64)
    → (xor width a b * 16777619) % 2 ^ width % 2 ^ 32 ≡ (xor 32 (a % 2 ^ 32) b * 16777619) % 2 ^ 32
round_low width a b (inl e) = rw e (let low = xor_low 32 32 a b (omega arith) in omega arith)
round_low width a b (inr e) = rw e (let low = xor_low 32 64 a b (omega arith) in omega arith)

-- On a target with an `unsigned long` of 32 or 64 bits, the four low bytes of the checksum are those of
-- the host tool's.
pub checksum_agrees :
    (width sum : ℕ) (bytes : List ℕ)
    → (width ≡ 32) ⊎ (width ≡ 64)
    → checksum_from width sum bytes % 2 ^ 32 ≡ masked_checksum (sum % 2 ^ 32) bytes
unfolding checksum_from masked_checksum
checksum_agrees width sum [] w = refl
checksum_agrees width sum (b ∷ bytes) w =
    checksum_agrees width ((xor width sum b * 16777619) % 2 ^ width) bytes w
    ∙ ap (λ (k : ℕ). masked_checksum k bytes) (round_low width sum b w)
