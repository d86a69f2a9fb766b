-- ===== src/Checks/PowerTest.antt =====
-- What the checks let through.
use nvsim.Shared.{
  ℕ, zero, suc, ◌+◌, ◌-◌, ◌*◌, ◌/◌, ◌%◌, ◌^◌, ◌≤◌, ◌<◌, ◌≡◌, refl, sym, ap, ◌∙◌, arith, Bool, true,
  false, PowerOfTwo, pow2-suc, pow2_pos, pow2-double, if◌then◌else◌, subst, ◌↔◌, ltb, ◌==◌,
  Bool-cases, inl, inr, some, none, not, ◌&&◌, ◌||◌, ==→≡, PowerOfTwo-pos,
}
use nvsim.Types.{MemCellType}
use nvsim.Input.{InputParameter}
use nvsim.Checks.{
  bit_and, is_pow2, apply_constraint, without_ways, is_cam, is_cache, is_h_tree, is_unsupported,
}
use mathlib.Core.Bool.{false≢true}
use mathlib.Core.Option.{some-injective}
use native.Mathlib.Decide.{dec_le}

bit_and_zero : (w a : ℕ) → bit_and w a 0 ≡ 0
unfolding bit_and
bit_and_zero zero a = refl
bit_and_zero (suc w) a = rw (bit_and_zero w (a / 2)) (omega arith)

halves : (m r : ℕ) → m % 2 ≡ r → 2 * (m / 2) + r * r ≡ m → 2 * (m / 2) + m % 2 * (m % 2) ≡ m
halves m r e h = ap (λ x. 2 * (m / 2) + x * x) e ∙ h

bit_and_self : (w m : ℕ) → m < 2 ^ w → bit_and w m m ≡ m
unfolding bit_and
bit_and_self zero m h = omega arith
bit_and_self (suc w) m h =
    rw (bit_and_self w (m / 2) (omega (arith, pow2-suc w))) (elim (dec_le 1 (m % 2)) [
      | yes odd ↦ let bit : m % 2 ≡ 1 = omega arith in halves m 1 bit (omega arith)
      | no even ↦ let bit : m % 2 ≡ 0 = omega arith in halves m 0 bit (omega arith)
    ])

-- The two steps of `n & (n - 1)`.
even_step : (w m : ℕ) → 1 ≤ m → bit_and (suc w) (2 * m) (2 * m - 1) ≡ 2 * bit_and w m (m - 1)
unfolding bit_and
even_step w m h =
    let half : 2 * m / 2 ≡ m = omega arith in
    let other : (2 * m - 1) / 2 ≡ m - 1 = omega arith in
    let none : 2 * m % 2 ≡ 0 = omega arith in rw (half, other, none) (omega arith)

odd_step : (w m : ℕ) → bit_and (suc w) (2 * m + 1) (2 * m + 1 - 1) ≡ 2 * bit_and w m m
unfolding bit_and
odd_step w m =
    let half : (2 * m + 1) / 2 ≡ m = omega arith in
    let other : (2 * m + 1 - 1) / 2 ≡ m = omega arith in
    let none : (2 * m + 1 - 1) % 2 ≡ 0 = omega arith in rw (half, other, none) (omega arith)

bit_and-power : (w n : ℕ) → 1 ≤ n → n < 2 ^ w → bit_and w n (n - 1) ≡ 0 → PowerOfTwo n
bit_and-power zero n h k e = absurd (omega arith)
bit_and-power (suc w) n h k e = elim (dec_le 1 (n % 2)) [
  | yes odd ↦
      let m = n / 2 in
      let is : n ≡ 2 * m + 1 = omega arith in
      let small : m < 2 ^ w = omega (arith, pow2-suc w) in
      let double : 2 * bit_and w m m ≡ 0 =
        sym (odd_step w m) ∙ ap (λ x. bit_and (suc w) x (x - 1)) (sym is) ∙ e in
      let gone : m ≡ 0 = omega (arith, bit_and_self w m small) in (0, omega arith)
  | no even ↦
      let m = n / 2 in
      let is : n ≡ 2 * m = omega arith in
      let double : 2 * bit_and w m (m - 1) ≡ 0 =
        sym (even_step w m (omega arith)) ∙ ap (λ x. bit_and (suc w) x (x - 1)) (sym is) ∙ e in
      subst PowerOfTwo (sym is)
        (pow2-double m (bit_and-power w m (omega arith) (omega (arith, pow2-suc w)) (omega arith)))
]

unfolded_zero : (a b : ℕ) → bit_and 0 a b ≡ 0
unfolding bit_and
unfolded_zero a b = refl

bit_and_of_power : (w k : ℕ) → bit_and w (2 ^ k) (2 ^ k - 1) ≡ 0
bit_and_of_power zero k = unfolded_zero (2 ^ k) (2 ^ k - 1)
bit_and_of_power (suc w) zero = bit_and_zero (suc w) 1
bit_and_of_power (suc w) (suc k) =
    rw (pow2-suc k) (even_step w (2 ^ k) (pow2_pos k) ∙ ap (λ x. 2 * x) (bit_and_of_power w k))

-- On the numbers of an `int`, the bit trick recognises just the powers of two.
pub is_pow2_iff : (n : ℕ) → n < 2 ^ 31 → (is_pow2 n ≡ true) ↔ PowerOfTwo n
unfolding is_pow2
is_pow2_iff n h = (
  λ e. elim (Bool-cases (ltb n 1)) [
    | inl under ↦ absurd (false≢true (rw under at e))
    | inr over ↦
        let rest : bit_and 32 n (n - 1) == 0 ≡ true = rw over at e in
        bit_and-power 32 n (ground arith) (omega arith) (==→≡ _ _ rest)
  ],
  λ q.
      let over : ltb n 1 ≡ false = ground (arith, PowerOfTwo-pos n q) in
      let power : bit_and 32 n (n - 1) ≡ 0 = rw (q.1) (bit_and_of_power 32 q.0) in
      rw (over, power) refl,
)

no_answer : {A : Type 0} (r : A) → none ≡ some r → ⊥
no_answer r = cc

-- What the chain of exits tells.
chain_inv :
    {A : Type 0} (cam unsupported power external : Bool) (q r : A)
    → (if cam
        then none
        else (if unsupported
            then none
            else (if not power then none else (if external then none else some q))))
      ≡ some r
    → (cam ≡ false) × (unsupported ≡ false) × (power ≡ true) × (external ≡ false) × (q ≡ r)
chain_inv true u w x q r e = absurd (no_answer r e)
chain_inv false true w x q r e = absurd (no_answer r e)
chain_inv false false false x q r e = absurd (no_answer r e)
chain_inv false false true true q r e = absurd (no_answer r e)
chain_inv false false true false q r e = (refl, refl, refl, refl, some-injective _ _ e)

one_way :
    (is_a_cache : Bool) (n : ℕ)
    → n < 2 ^ 31
    → let m = if not is_a_cache && ltb 1 n then 1 else n in
      (m < 2 ^ 31) × ((is_a_cache || ltb m 2) ≡ true)
one_way true n h = (h, refl)
one_way false n h = elim (Bool-cases (ltb 1 n)) [
  | inl many ↦ rw many (omega arith, refl)
  | inr one ↦ rw one (h, ground arith)
]

-- What passes the checks is a cache or a RAM of a supported cell, has internal sensing if it has an
-- H-tree, and an associativity that is a power of two, just 1 unless it is a cache, if the
-- associativity was an `int`.
pub apply_constraint-passed :
    {D : Type 0} (cell : MemCellType) (p q : InputParameter D)
    → p.associativity < 2 ^ 31
    → apply_constraint cell p ≡ some q
    → (is_cam q.design_target ≡ false)
      × (is_unsupported cell ≡ false)
      × (is_h_tree q.routing_mode && not q.internal_sensing ≡ false)
      × PowerOfTwo q.associativity
      × ((is_cache q.design_target || ltb q.associativity 2) ≡ true)
unfolding apply_constraint
apply_constraint-passed cell p q h e =
    let (cam, unsupported, power, internal, same) =
      chain_inv (is_cam p.design_target) (is_unsupported cell)
        (is_pow2 (without_ways p).associativity)
        (is_h_tree (without_ways p).routing_mode && not (without_ways p).internal_sensing)
        (without_ways p) q e in
    let (small, single) = one_way (is_cache p.design_target) p.associativity h in
    subst
      (λ x.
        (is_cam x.design_target ≡ false)
        × (is_unsupported cell ≡ false)
        × (is_h_tree x.routing_mode && not x.internal_sensing ≡ false)
        × PowerOfTwo x.associativity
        × ((is_cache x.design_target || ltb x.associativity 2) ≡ true))
      same
      (
        cam,
        unsupported,
        internal,
        (is_pow2_iff (without_ways p).associativity small).0 power,
        single,
      )
