-- ===== src/Mat/Shape.antt =====
-- The cells of a mat: the rows times the columns of a subarray.
use native.Mathlib.Nat.{div-div-eq-div-mul}
use nvsim.Shared.{
  ℕ, zero, suc, ◌+◌, ◌*◌, ◌/◌, ◌^◌, ◌≤◌, ◌<◌, ◌≡◌, refl, sym, ap, ◌∙◌, ◌≢◌, arith, ℤ, pos, negsuc,
  pow2-add, pow2-div_exact, pow2_quotient,
}
use mathlib.Core.Path.{ap₂}
use nvsim.Types.{data_array}
use nvsim.Mat.{
  valid, MatRequest, MatShape, shape_from, rows_of, columns_of, data_columns_of, mux_degree,
  active_subarrays,
}

-- What a mat that gets a shape has passed.
pub record Passed (m : MatRequest) (z : ℤ) (s : MatShape) : Type 0 where
  pub bits : ℕ
  pub positive : 1 ≤ bits
  pub fits : bits < 31
  pub is_bits : z ≡ pos bits
  pub has_rows : rows_of m bits ≢ 0
  pub has_columns : data_columns_of m ≢ 0
  pub num_row : s.num_row ≡ rows_of m bits
  pub num_column : s.num_column ≡ columns_of m
  pub num_address_bit : s.num_address_bit ≡ bits

pub shape_from-Passed :
    (m : MatRequest) (z : ℤ) (s : MatShape) → shape_from m z ≡ valid s → Passed m z s
unfolding shape_from
shape_from-Passed m (negsuc n) s e = cc
shape_from-Passed m (pos zero) s e = cc
shape_from-Passed m (pos (suc n)) s e = record {
  bits = suc n;
  positive = omega arith;
  fits = ground arith;
  is_bits = refl;
  has_rows = ground arith;
  has_columns = ground arith;
  num_row = ground arith;
  num_column = ground arith;
  num_address_bit = ground arith;
}

-- An exact quotient of powers of two.
quotient_mul : (a b : ℕ) → 2 ^ a / 2 ^ b ≢ 0 → 2 ^ a / 2 ^ b * 2 ^ b ≡ 2 ^ a
quotient_mul a b h = let (le, e) = pow2-div_exact a b h in rw e (pow2_quotient a b le)

shuffle : (r c u e : ℕ) → r * (c * u) * e ≡ (r * u) * (c * e)
shuffle r c u e = omega arith

module _ (m : MatRequest) where
  rows_data :
      (n w u : ℕ)
      → m.memory_type ≡ data_array
      → m.num_way ≡ 2 ^ w
      → mux_degree m ≡ 2 ^ u
      → rows_of m n ≡ 2 ^ (n + w) / 2 ^ u
  unfolding rows_of
  rows_data n w u kind ways mux =
      rw (kind, ways, mux) (ap (λ (t : ℕ). t / 2 ^ u) (sym (pow2-add n w)))

  data_columns_power :
      (b e a : ℕ)
      → m.num_data_bit ≡ 2 ^ b / 2 ^ e
      → active_subarrays m ≡ 2 ^ a
      → data_columns_of m ≡ 2 ^ b / 2 ^ (e + a)
  unfolding data_columns_of
  data_columns_power b e a columns active =
      ap (λ (t : ℕ). t / active_subarrays m) columns
      ∙ ap (λ (t : ℕ). 2 ^ b / 2 ^ e / t) active
      ∙ div-div-eq-div-mul (2 ^ b) (2 ^ e) (2 ^ a)
      ∙ ap (λ (t : ℕ). 2 ^ b / t) (sym (pow2-add e a))

  columns_data : m.memory_type ≡ data_array → columns_of m ≡ data_columns_of m * mux_degree m
  unfolding columns_of
  columns_data kind = rw kind refl

  -- A data mat whose ways, multiplexing degree and active subarrays are powers of two, and whose data
  -- bits are a power of two divided by one, loses no cell if it gets a shape: for n effective address
  -- bits, the cells of a subarray times both divisors are 2 ^ n times the ways times that power.
  pub cells_data :
      (z : ℤ) (s : MatShape) (w u b e a : ℕ)
      → m.memory_type ≡ data_array
      → m.num_way ≡ 2 ^ w
      → mux_degree m ≡ 2 ^ u
      → m.num_data_bit ≡ 2 ^ b / 2 ^ e
      → active_subarrays m ≡ 2 ^ a
      → shape_from m z ≡ valid s
      → (n : ℕ) × (z ≡ pos n) × (s.num_row * s.num_column * 2 ^ (e + a) ≡ 2 ^ (n + w) * 2 ^ b)
  cells_data z s w u b e a kind ways mux columns active got =
      let p = shape_from-Passed m z s got in
      let rows = rows_data p.bits w u kind ways mux in
      let data_columns = data_columns_power b e a columns active in
      let exact_rows : rows_of m p.bits * 2 ^ u ≡ 2 ^ (p.bits + w) =
        rw rows (quotient_mul (p.bits + w) u (λ h. p.has_rows (rows ∙ h))) in
      let exact_columns : data_columns_of m * 2 ^ (e + a) ≡ 2 ^ b =
        rw data_columns (quotient_mul b (e + a) (λ h. p.has_columns (data_columns ∙ h))) in
      let width : s.num_column ≡ data_columns_of m * 2 ^ u =
        p.num_column ∙ columns_data kind ∙ ap (λ (t : ℕ). data_columns_of m * t) mux in
      (
        p.bits,
        p.is_bits,
        rw (p.num_row, width)
            (shuffle (rows_of m p.bits) (data_columns_of m) (2 ^ u) (2 ^ (e + a))
              ∙ ap₂ (λ (x y : ℕ). x * y) exact_rows exact_columns),
      )
