-- ===== src/Bank/Muxes.antt =====
-- The widened multiplexers of a bank with several ways in a row keep powers of two.
use native.Mathlib.Nat.{div-div-eq-div-mul}
use nvsim.Shared.{
  ℕ, suc, ◌+◌, ◌-◌, ◌*◌, ◌/◌, ◌^◌, ◌≤◌, ◌<◌, ◌≡◌, sym, ap, ◌∙◌, ltb, arith, pos_part, pow2-add,
  pow2_quotient, mul-div_cancel, pow2_pos, Bool-cases, inl, inr,
}
use nvsim.Types.{MemCellType}
use nvsim.Double.{Double, IsExact, whole_log2, whole_log2_power}
use nvsim.Bank.Request.{Muxes, degree, is_dram, int_pow2, widen_muxes}

module _ {D : Type 0} {d : Double D} (exact : IsExact d) where
  pub int_pow2_power : (k : ℕ) → k < 31 → int_pow2 d k ≡ 2 ^ k
  unfolding int_pow2
  int_pow2_power k h = ap pos_part (exact.pow_exact k h)

  pub power_quotient : (t x : ℕ) → x ≤ t → 2 ^ t / 2 ^ x ≡ 2 ^ (t - x)
  power_quotient t x h = rw (← pow2_quotient t x h) (mul-div_cancel (2 ^ (t - x)) (pow2_pos x))

  -- The level-2 share of the extra degree: a half or a third of its exponent.
  share : (k t : ℕ) → t < 31 → int_pow2 d (whole_log2 d (2 ^ t) / suc k) ≡ 2 ^ (t / suc k)
  share k t h =
      rw (whole_log2_power exact t (omega arith)) (int_pow2_power (t / suc k) (grind arith))

  once : (t x : ℕ) → x ≤ t → 2 ^ t / 2 ^ x * 2 ^ x ≡ 2 ^ t
  once t x h = rw (power_quotient t x h) (pow2_quotient t x h)

  twice : (t x : ℕ) → x + x ≤ t → 2 ^ t / 2 ^ x / 2 ^ x * (2 ^ x * 2 ^ x) ≡ 2 ^ t
  twice t x h =
      ap (λ (q : ℕ). q * (2 ^ x * 2 ^ x)) (div-div-eq-div-mul (2 ^ t) (2 ^ x) (2 ^ x))
      ∙ ap (λ (y : ℕ). 2 ^ t / y * y) (sym (pow2-add x x))
      ∙ once t (x + x) h

  fold_one : (a b c q l w : ℕ) → q * l ≡ w → a * (b * q) * (c * l) ≡ a * b * c * w
  fold_one a b c q l w e =
      let f : a * (b * q) * (c * l) ≡ a * b * c * (q * l) = omega arith in
      f ∙ ap (λ (y : ℕ). a * b * c * y) e

  fold_two : (a b c q l w : ℕ) → q * (l * l) ≡ w → a * q * (b * l) * (c * l) ≡ a * b * c * w
  fold_two a b c q l w e =
      let f : a * q * (b * l) * (c * l) ≡ a * b * c * (q * (l * l)) = omega arith in
      f ∙ ap (λ (y : ℕ). a * b * c * y) e

  -- With exact arithmetic on powers of two, the three degrees together grow by just the number of ways
  -- in a row, if that is a power of two below 2 ^ 31, whatever the cell.
  pub degree-widen_muxes :
      (cell : MemCellType) (t : ℕ) (m : Muxes)
      → t < 31
      → degree (widen_muxes d cell (2 ^ t) m) ≡ degree m * 2 ^ t
  unfolding widen_muxes
  degree-widen_muxes cell t m h = elim (Bool-cases (ltb 1 (2 ^ t))) [
    | inr one ↦
        let single : 2 ^ t ≡ 1 = ground (arith, pow2_pos t) in rw (one, single) (omega arith)
    | inl many ↦ elim (Bool-cases (is_dram cell)) [
      | inl dram ↦
          rw (many, dram, share 1 t h)
            (fold_one m.sense_amp m.output_lev1 m.output_lev2 (2 ^ t / 2 ^ (t / 2)) (2 ^ (t / 2))
              (2 ^ t) (once t (t / 2) (omega arith)))
      | inr other ↦
          rw (many, other, share 2 t h)
            (fold_two m.sense_amp m.output_lev1 m.output_lev2 (2 ^ t / 2 ^ (t / 3) / 2 ^ (t / 3))
              (2 ^ (t / 3)) (2 ^ t) (twice t (t / 3) (omega arith)))
    ]
  ]
