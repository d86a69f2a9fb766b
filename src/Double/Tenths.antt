-- ===== src/Double/Tenths.antt =====
-- A value of the interface: fixed-point numbers in tenths. It serves the witnesses, and shows that
-- the laws which some theorems name can be met. `sqrt` and `log` are stand-ins.
use nvsim.Shared.{
  ℕ, zero, suc, ◌+◌, ◌-◌, ◌*◌, ◌/◌, ◌^◌, ◌<◌, ◌≡◌, ltb, leb, ◌==◌, if◌then◌else◌, arith, ℤ, pos,
  negsuc, pow2-suc, pow2_pos, mul-div_cancel, false, ap, refl,
}
use nvsim.Double.Ops.{Double, IsStrictOrder, IsExact}

-- The whole logarithm, with fuel for each halving.
unfoldable pub floor_log2 : ℕ → ℕ → ℕ
floor_log2 zero n = 0
floor_log2 (suc fuel) n = let rest = floor_log2 fuel (n / 2) in if ltb n 2 then 0 else suc rest

floor_log2_exact : (fuel k : ℕ) → k < fuel → floor_log2 fuel (2 ^ k) ≡ k
unfolding floor_log2
floor_log2_exact zero k h = absurd (omega arith)
floor_log2_exact (suc fuel) zero h = refl
floor_log2_exact (suc fuel) (suc k) h =
    let half : 2 ^ suc k / 2 ≡ 2 ^ k = omega (arith, pow2-suc k) in
    let big : ltb (2 ^ suc k) 2 ≡ false = ground (arith, pow2-suc k, pow2_pos k) in
    rw (big, half) (ap suc (floor_log2_exact fuel k (omega arith)))

abbrev pub Tenths : Type 0
Tenths = ℕ

abbrev pub of_integer : ℤ → ℕ
of_integer (pos n) = 10 * n
of_integer (negsuc n) = 0

instance abbrev pub tenths : Double Tenths
tenths = record {
  decimal = λ m e. m * 10 / 10 ^ e;
  of_int = of_integer;
  trunc = λ a. pos (a / 10);
  add = λ a b. a + b;
  sub = λ a b. a - b;
  mul = λ a b. a * b / 10;
  div = λ a b. a * 10 / b;
  lt = ltb;
  le = leb;
  eq = λ a b. a == b;
  sqrt = λ a. a;
  log = λ a. a;
  log2 = λ a. 10 * floor_log2 64 (a / 10);
  pow = λ a b. 10 * (a / 10) ^ (b / 10);
  ceil = λ a. (a + 9) / 10 * 10;
  fabs = λ a. a;
}

pub tenths-IsStrictOrder : IsStrictOrder tenths
tenths-IsStrictOrder = record {
  irreflexive = λ a. ground arith;
  transitive = λ a b c p q. ground arith;
}

tenths_div : (k n : ℕ) → 0 < n → 10 * (2 ^ k * n) * 10 / (10 * n) ≡ 10 * 2 ^ k
tenths_div k n h =
    let e : 10 * (2 ^ k * n) * 10 ≡ (10 * 2 ^ k) * (10 * n) = omega arith in
    rw e (mul-div_cancel (10 * 2 ^ k) (omega arith))

tenths_log2 : (k : ℕ) → k < 53 → (10 * floor_log2 64 (10 * 2 ^ k / 10) + 1) / 10 ≡ k
tenths_log2 k h =
    let e : 10 * 2 ^ k / 10 ≡ 2 ^ k = omega arith in
    rw (e, floor_log2_exact 64 k (omega arith)) (omega arith)

tenths_log2_whole : (k : ℕ) → k < 53 → 10 * floor_log2 64 (10 * 2 ^ k / 10) / 10 ≡ k
tenths_log2_whole k h =
    let e : 10 * 2 ^ k / 10 ≡ 2 ^ k = omega arith in
    rw (e, floor_log2_exact 64 k (omega arith)) (omega arith)

tenths_pow : (k : ℕ) → 10 * (20 / 10) ^ (10 * k / 10) / 10 ≡ 2 ^ k
tenths_pow k = let e : 10 * k / 10 ≡ k = omega arith in rw e (omega arith)

pub tenths-IsExact : IsExact tenths
tenths-IsExact = record {
  div_exact = λ k n h b. tenths_div k n h;
  log2_exact = λ k h. ap pos (tenths_log2 k h);
  log2_whole = λ k h. ap pos (tenths_log2_whole k h);
  pow_exact = λ k h. ap pos (tenths_pow k);
}
