-- ===== src/Bank/Htree/Powers.antt =====
-- BankWithHtree.cpp: a bank whose parameters are powers of two, and its tree before and after the
-- routing.
use native.Mathlib.Nat.{pow-le-pow_right}
use nvsim.Shared.{
  pow2-lt, ℕ, ◌+◌, ◌-◌, ◌*◌, ◌^◌, ◌≤◌, ◌<◌, ◌≡◌, ap, ◌∙◌, min, false, arith, pos, pos_part,
  pow2_quotient, pow2_pos, some, ltb,
}
use nvsim.Types.{data_array}
use nvsim.Double.{Double, IsExact, whole_log2, whole_log2_power, log2_round_power}
use nvsim.Mat.{MatShape, cut_off}
use nvsim.Bank.Request.{BankRequest, address_bits}
use nvsim.Bank.Htree.Defs.{Tree, data_bits, start, route_all, routed}
use nvsim.Bank.Htree.Routing.{Routed, route_all-Routed}

-- The left side of the test of VERIFY_DATA_CAPACITY.
unfoldable pub cell_count : BankRequest → MatShape → ℕ
cell_count b s =
    s.num_column * s.num_row * b.point.num_column_mat * b.point.num_row_mat
    * b.point.num_column_subarray * b.point.num_row_subarray

-- The exponents of a data bank whose parameters are powers of two.
pub record Powers (b : BankRequest) : Type 0 where
  pub cap : ℕ
  pub blk : ℕ
  pub way : ℕ
  pub rows : ℕ
  pub columns : ℕ
  pub active_rows : ℕ
  pub active_columns : ℕ
  pub sub_rows : ℕ
  pub sub_columns : ℕ
  pub active_sub_rows : ℕ
  pub active_sub_columns : ℕ
  pub mux0 : ℕ
  pub mux1 : ℕ
  pub mux2 : ℕ
  pub per_set : ℕ
  pub capacity : b.capacity ≡ 2 ^ cap
  pub block_size : b.block_size ≡ 2 ^ blk
  pub associativity : b.associativity ≡ 2 ^ way
  pub num_row_mat : b.point.num_row_mat ≡ 2 ^ rows
  pub num_column_mat : b.point.num_column_mat ≡ 2 ^ columns
  pub num_active_mat_per_column : b.point.num_active_mat_per_column ≡ 2 ^ active_rows
  pub num_active_mat_per_row : b.point.num_active_mat_per_row ≡ 2 ^ active_columns
  pub num_row_subarray : b.point.num_row_subarray ≡ 2 ^ sub_rows
  pub num_column_subarray : b.point.num_column_subarray ≡ 2 ^ sub_columns
  pub num_active_subarray_per_column : b.point.num_active_subarray_per_column ≡ 2 ^ active_sub_rows
  pub num_active_subarray_per_row : b.point.num_active_subarray_per_row ≡ 2 ^ active_sub_columns
  pub mux_sense_amp : b.point.mux_sense_amp ≡ 2 ^ mux0
  pub mux_output_lev1 : b.point.mux_output_lev1 ≡ 2 ^ mux1
  pub mux_output_lev2 : b.point.mux_output_lev2 ≡ 2 ^ mux2
  pub num_row_per_set : b.point.num_row_per_set ≡ 2 ^ per_set

-- No more active units than units, an address for each word, and numbers within an `int`.
pub record Sizes {b : BankRequest} (p : Powers b) : Type 0 where
  pub active_rows : p.active_rows ≤ p.rows
  pub active_columns : p.active_columns ≤ p.columns
  pub active_sub_rows : p.active_sub_rows ≤ p.sub_rows
  pub active_sub_columns : p.active_sub_columns ≤ p.sub_columns
  pub words : p.blk + p.way ≤ p.cap
  pub cap : p.cap < 53
  pub way : p.way < 31
  pub rows : p.rows < 31
  pub columns : p.columns < 31
  pub subs : p.sub_rows + p.sub_columns < 31

pub cut_off_within : (a t i k : ℕ) → a ≡ 2 ^ i → t ≡ 2 ^ k → i ≤ k → cut_off a t ≡ 2 ^ i
unfolding cut_off
cut_off_within a t i k e f h =
    let le : 2 ^ i ≤ 2 ^ k = pow-le-pow_right {n = 2} (omega arith) h in
    let in_range : ltb t a ≡ false = rw (e, f) (ground arith) in rw in_range e

module _ {D : Type 0} {d : Double D} (exact : IsExact d) where
  div_powers :
      (y x : ℕ)
      → x ≤ y
      → y < 53
      → d.div (d.of_int (pos (2 ^ y))) (d.of_int (pos (2 ^ x))) ≡ d.of_int (pos (2 ^ (y - x)))
  div_powers y x h k =
      let e = pow2_quotient y x h in
      rw (← e) (exact.div_exact (y - x) (2 ^ x) (pow2_pos x) (rw e (pow2-lt y 53 k)))

  module _ {b : BankRequest} (p : Powers b) (z : Sizes p) where
    pub address_bits_power : address_bits d b ≡ pos (p.cap - p.blk - p.way)
    unfolding address_bits
    address_bits_power =
        rw
          (
            p.capacity,
            p.block_size,
            p.associativity,
            div_powers p.cap p.blk (omega (arith, z.words)) z.cap,
            div_powers (p.cap - p.blk) p.way (omega (arith, z.words)) (omega (arith, z.cap)),
          )
          (log2_round_power ⦃d = d⦄ exact (p.cap - p.blk - p.way) (omega (arith, z.cap)))

    -- The tree before the routing.
    start-Routed :
        b.memory_type ≡ data_array
        → Routed b.block_size
            (p.cap - p.blk - p.way)
            p.active_columns
            p.active_rows
            p.way
            0
            0
            (start d b).route
    unfolding start data_bits
    start-Routed kind =
        let columns : p.active_columns ≡ p.active_columns - 0 = omega arith in
        let rows : p.active_rows ≡ p.active_rows - 0 = omega arith in
        let none_halved : min p.active_columns 0 + min p.active_rows 0 ≡ 0 = omega arith in
        record {
          column =
              cut_off_within _ _ p.active_columns p.columns p.num_active_mat_per_row
                p.num_column_mat z.active_columns
              ∙ ap (λ t. 2 ^ t) columns;
          row =
              cut_off_within _ _ p.active_rows p.rows p.num_active_mat_per_column p.num_row_mat
                z.active_rows
              ∙ ap (λ t. 2 ^ t) rows;
          distribute = rw (kind, none_halved) (omega arith);
          broadcasts =
              rw (kind, p.associativity)
                (ap pos_part (exact.log2_whole p.way (omega (arith, z.way))));
          left = p.cap - p.blk - p.way;
          address = address_bits_power;
          spent = omega arith;
        }

    pub routed-Routed :
        b.memory_type ≡ data_array
        → (t : Tree) → routed d b ≡ some t
        → Routed b.block_size
            (p.cap - p.blk - p.way)
            p.active_columns
            p.active_rows
            p.way
            p.columns
            p.rows
            t.route
    unfolding routed
    routed-Routed kind t e =
        let h : whole_log2 d b.point.num_column_mat ≡ p.columns =
          rw p.num_column_mat (whole_log2_power exact p.columns (omega (arith, z.columns))) in
        let v : whole_log2 d b.point.num_row_mat ≡ p.rows =
          rw p.num_row_mat (whole_log2_power exact p.rows (omega (arith, z.rows))) in
        let went : route_all p.columns p.rows (start d b) ≡ some t = rw (← h, ← v) e in
        route_all-Routed b.block_size (p.cap - p.blk - p.way) p.active_columns p.active_rows p.way
          p.columns p.rows (start d b) t z.active_columns went (start-Routed kind)
