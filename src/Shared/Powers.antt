-- ===== src/Shared/Powers.antt =====
-- Powers of two: products, quotients and order, through their exponents.
use Prim.Native.Nat.{◌-◌, ℕ, zero, suc, ◌+◌, ◌*◌, ◌/◌, ◌^◌, ◌≤◌, ◌<◌, min}
use mathlib.Core.Path.{◌≡◌, sym, ap, ◌∙◌}
use native.Mathlib.Omega.{arith}
use native.Mathlib.Nat.{pow-suc, one-le-pow, mul_comm}
use native.Mathlib.Nat.{div-eq_of_lt, pow-le-pow_right}
use mathlib.Core.Logic.{◌≢◌}
pub use native.Mathlib.Nat.{mul-div_cancel}
use native.Mathlib.Decide.{dec_le}

-- The exponent is kept.
abbrev pub PowerOfTwo : ℕ → Type 0
PowerOfTwo n = (k : ℕ) × (n ≡ 2 ^ k)

pub pow2_pos : (k : ℕ) → 1 ≤ 2 ^ k
pow2_pos k = one-le-pow k 2 (omega arith)

pub pow2-suc : (k : ℕ) → 2 ^ suc k ≡ 2 * 2 ^ k
pow2-suc k = pow-suc 2 k ∙ mul_comm (2 ^ k) 2

pub pow2-add : (a b : ℕ) → 2 ^ (a + b) ≡ 2 ^ a * 2 ^ b
pow2-add zero b = let e : 0 + b ≡ b = omega arith in rw e (omega arith)
pow2-add (suc a) b =
    let e : suc a + b ≡ suc (a + b) = omega arith in
    rw (e, pow2-suc (a + b), pow2-suc a) (grind (arith, pow2-add a b))

pub pow2-double : (n : ℕ) → PowerOfTwo n → PowerOfTwo (2 * n)
pow2-double n (k, e) = (suc k, rw e (sym (pow2-suc k)))

pub pow2-le : (a b : ℕ) → 2 ^ a ≤ 2 ^ b → a ≤ b
pow2-le zero b h = omega arith
pow2-le (suc a) zero h = absurd (omega (arith, pow2-suc a, pow2_pos a))
pow2-le (suc a) (suc b) h = omega (arith, pow2-le a b (omega (arith, pow2-suc a, pow2-suc b)))

pub pow2-lt : (a b : ℕ) → a < b → 2 ^ a < 2 ^ b
pow2-lt a b h = elim (dec_le (2 ^ b) (2 ^ a)) [
  | yes k ↦ absurd (omega (arith, pow2-le b a k))
  | no k ↦ omega arith
]

pub pow2-div : (a b : ℕ) → 2 ^ (a + b) / 2 ^ b ≡ 2 ^ a
pow2-div a b = rw (pow2-add a b) (mul-div_cancel (2 ^ a) (pow2_pos b))

pub PowerOfTwo-min : (m n : ℕ) → PowerOfTwo m → PowerOfTwo n → PowerOfTwo (min m n)
PowerOfTwo-min m n p q = elim (dec_le m n) [
  | yes h ↦ let e : min m n ≡ m = omega arith in rw e p
  | no h ↦ let e : min m n ≡ n = omega arith in rw e q
]

pub pow2_quotient : (m k : ℕ) → k ≤ m → 2 ^ (m - k) * 2 ^ k ≡ 2 ^ m
pow2_quotient m k h =
    let e : m - k + k ≡ m = omega arith in sym (pow2-add (m - k) k) ∙ ap (λ (t : ℕ). 2 ^ t) e

-- A quotient of powers of two that is not 0 is exact.
pub pow2-div_exact : (a b : ℕ) → 2 ^ a / 2 ^ b ≢ 0 → (b ≤ a) × (2 ^ a / 2 ^ b ≡ 2 ^ (a - b))
pow2-div_exact a b h = elim (dec_le b a) [
  | yes le ↦ (le, rw (← pow2_quotient a b le) (mul-div_cancel (2 ^ (a - b)) (pow2_pos b)))
  | no gt ↦ absurd (h (div-eq_of_lt (pow2-lt a b (omega arith))))
]

pub pow2_below : (a b : ℕ) → 2 ^ a < 2 ^ b → a < b
pow2_below a b h = elim (dec_le b a) [
  | yes le ↦ absurd (omega (arith, pow-le-pow_right {n = 2} (omega arith) le))
  | no gt ↦ omega arith
]

pub PowerOfTwo-mul : (m n : ℕ) → PowerOfTwo m → PowerOfTwo n → PowerOfTwo (m * n)
PowerOfTwo-mul m n (a, e) (b, f) = (a + b, rw (e, f) (sym (pow2-add a b)))

pub PowerOfTwo-pos : (n : ℕ) → PowerOfTwo n → 1 ≤ n
PowerOfTwo-pos n (k, e) = rw e (pow2_pos k)
