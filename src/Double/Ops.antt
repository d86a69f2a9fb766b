-- ===== src/Double/Ops.antt =====
-- The operations on `double` that the source uses, and the laws that some theorems name.
use nvsim.Shared.{ℕ, ◌*◌, ◌^◌, ◌<◌, ◌≡◌, Bool, true, false, if◌then◌else◌, ℤ, pos, pos_part, ap}

pub record Double (D : Type 0) : Type 0 where
  -- `decimal m e` is the literal m / 10^e.
  pub decimal : ℕ → ℕ → D
  pub of_int : ℤ → D
  -- The cast `(int)`: towards zero.
  pub trunc : D → ℤ
  pub add : D → D → D
  pub sub : D → D → D
  pub mul : D → D → D
  pub div : D → D → D
  pub lt : D → D → Bool
  pub le : D → D → Bool
  pub eq : D → D → Bool
  pub sqrt : D → D
  pub log : D → D
  pub log2 : D → D
  pub pow : D → D → D
  pub ceil : D → D
  pub fabs : D → D

module _ {D : Type 0} ⦃d : Double D⦄ where
  infixl 65 ◌⊕◌ ◌⊖◌
  infixl 70 ◌⊗◌ ◌⊘◌
  infix 50 ◌≺◌ ◌≼◌
  abbrev pub ◌⊕◌ : D → D → D
  a ⊕ b = d.add a b

  abbrev pub ◌⊖◌ : D → D → D
  a ⊖ b = d.sub a b

  abbrev pub ◌⊗◌ : D → D → D
  a ⊗ b = d.mul a b

  abbrev pub ◌⊘◌ : D → D → D
  a ⊘ b = d.div a b

  abbrev pub ◌≺◌ : D → D → Bool
  a ≺ b = d.lt a b

  abbrev pub ◌≼◌ : D → D → Bool
  a ≼ b = d.le a b

  -- A whole literal, or an integer that the source converts.
  abbrev pub whole : ℕ → D
  whole n = d.of_int (pos n)

  -- The macros MAX and MIN: `(((a) > (b)) ? (a) : (b))` and its mirror image.
  abbrev pub max_d : D → D → D
  max_d a b = if b ≺ a then a else b

  abbrev pub min_d : D → D → D
  min_d a b = if a ≺ b then a else b

  -- `(int)(log2(x) + 0.1)`, by which the source counts address bits.
  unfoldable pub log2_round : D → ℤ
  log2_round x = d.trunc (d.log2 x ⊕ d.decimal 1 1)

-- The same of a count, which is at least 1, as a count.
unfoldable pub whole_log2 : {D : Type 0} → Double D → ℕ → ℕ
unfolding log2_round
whole_log2 d n = pos_part (log2_round ⦃d = d⦄ (whole ⦃d = d⦄ n))

-- What IEEE 754 promises of `<` for all values, NaN included.
pub record IsStrictOrder {D : Type 0} (d : Double D) : Type 0 where
  pub irreflexive : (a : D) → d.lt a a ≡ false
  pub transitive : (a b c : D) → d.lt a b ≡ true → d.lt b c ≡ true → d.lt a c ≡ true

-- Quotients of integers below 2^53 that are powers of two are exact, and so is `log2` of a power of
-- two, up to less than the 0.1 that the source adds.
pub record IsExact {D : Type 0} (d : Double D) : Type 0 where
  pub div_exact :
      (k n : ℕ)
      → 0 < n
      → 2 ^ k * n < 2 ^ 53
      → d.div (d.of_int (pos (2 ^ k * n))) (d.of_int (pos n)) ≡ d.of_int (pos (2 ^ k))
  pub log2_exact :
      (k : ℕ) → k < 53 → d.trunc (d.add (d.log2 (d.of_int (pos (2 ^ k)))) (d.decimal 1 1)) ≡ pos k
  pub log2_whole : (k : ℕ) → k < 53 → d.trunc (d.log2 (d.of_int (pos (2 ^ k)))) ≡ pos k
  pub pow_exact :
      (k : ℕ) → k < 31 → d.trunc (d.pow (d.of_int (pos 2)) (d.of_int (pos k))) ≡ pos (2 ^ k)

pub log2_round_power :
    {D : Type 0} ⦃d : Double D⦄ (exact : IsExact d) (k : ℕ)
    → k < 53
    → log2_round (whole {D = D} (2 ^ k)) ≡ pos k
unfolding log2_round
log2_round_power exact k h = exact.log2_exact k h

pub whole_log2_power :
    {D : Type 0} {d : Double D} (exact : IsExact d) (k : ℕ) → k < 53 → whole_log2 d (2 ^ k) ≡ k
unfolding whole_log2
whole_log2_power exact k h = ap pos_part (exact.log2_exact k h)
