-- ===== src/Bank/Htree/Cut.antt =====
-- BankWithHtree.cpp and Mat.cpp: the request of a mat by a data bank of powers of two.
use nvsim.Shared.{
  ℕ, ◌+◌, ◌-◌, ◌*◌, ◌/◌, ◌^◌, ◌≤◌, ◌≡◌, refl, sym, ap, ◌∙◌, min, true, arith, pow2-add,
  pow2_quotient, pow2_pos, pow2-le, mul-div_cancel, leb, leb→le,
}
use nvsim.Types.{MemCellType, data_array}
use nvsim.Double.{Double, IsExact, whole_log2_power}
use nvsim.Mat.{gating_bits, cut_off}
use nvsim.Mat.{mux_degree, active_subarrays}
use nvsim.Bank.Request.{BankRequest, degree, int_pow2}
use mathlib.Core.Path.{ap₂}
use nvsim.Bank.Muxes.{int_pow2_power, power_quotient, degree-widen_muxes}
use nvsim.Bank.Htree.Defs.{Route, ways_fit, mat_muxes, mat_request, point_muxes}
use nvsim.Bank.Htree.Routing.{Routed}
use nvsim.Bank.Htree.Powers.{Powers, Sizes, cut_off_within}

module _ {D : Type 0} {d : Double D} (exact : IsExact d) {b : BankRequest} (p : Powers b)
    (z : Sizes p) (cell : MemCellType) (kind : b.memory_type ≡ data_array) (r : Route)
    (end : Routed b.block_size
      (p.cap - p.blk - p.way)
      p.active_columns
      p.active_rows
      p.way
      p.columns
      p.rows
      r) where
  pub ways : int_pow2 d r.broadcast ≡ 2 ^ p.way
  ways = rw end.broadcasts (int_pow2_power exact p.way z.way)

  pub per_set-le : ways_fit d b.memory_type b r ≡ true → p.per_set ≤ p.way
  per_set-le fit =
      let fits : leb b.point.num_row_per_set (int_pow2 d r.broadcast) ≡ true = rw kind at fit in
      pow2-le p.per_set p.way (rw (← p.num_row_per_set, ← ways) (leb→le _ _ fits))

  pub request-kind : (mat_request d cell b r).memory_type ≡ data_array
  unfolding mat_request
  request-kind = kind

  pub request-ways : (mat_request d cell b r).num_way ≡ 2 ^ p.way
  unfolding mat_request
  request-ways = rw kind ways

  pub distribute-is : r.distribute ≡ 2 ^ p.blk / 2 ^ (p.active_columns + p.active_rows)
  distribute-is =
      let all_halved : min p.active_columns p.columns + min p.active_rows p.rows
          ≡ p.active_columns + p.active_rows =
        omega (arith, z.active_columns, z.active_rows) in
      end.distribute
      ∙ ap (λ (t : ℕ). b.block_size / 2 ^ t) all_halved
      ∙ ap (λ (t : ℕ). t / 2 ^ (p.active_columns + p.active_rows)) p.block_size

  pub request-bits :
      (mat_request d cell b r).num_data_bit ≡ 2 ^ p.blk / 2 ^ (p.active_columns + p.active_rows)
  unfolding mat_request
  request-bits = rw kind distribute-is

  active_row : (mat_request d cell b r).num_active_subarray_per_row ≡ 2 ^ p.active_sub_columns
  unfolding mat_request
  active_row =
      cut_off_within _ _ p.active_sub_columns p.sub_columns p.num_active_subarray_per_row
        p.num_column_subarray z.active_sub_columns

  active_column : (mat_request d cell b r).num_active_subarray_per_column ≡ 2 ^ p.active_sub_rows
  unfolding mat_request
  active_column =
      cut_off_within _ _ p.active_sub_rows p.sub_rows p.num_active_subarray_per_column
        p.num_row_subarray z.active_sub_rows

  request-row : (mat_request d cell b r).num_row_subarray ≡ 2 ^ p.sub_rows
  unfolding mat_request
  request-row = p.num_row_subarray

  request-column : (mat_request d cell b r).num_column_subarray ≡ 2 ^ p.sub_columns
  unfolding mat_request
  request-column = p.num_column_subarray

  -- Cutting off a second time changes nothing.
  cut_columns :
      cut_off
        (mat_request d cell b r).num_active_subarray_per_row
        (mat_request d cell b r).num_column_subarray
      ≡ 2 ^ p.active_sub_columns
  cut_columns =
      cut_off_within _ _ p.active_sub_columns p.sub_columns active_row request-column
        z.active_sub_columns

  cut_rows :
      cut_off
        (mat_request d cell b r).num_active_subarray_per_column
        (mat_request d cell b r).num_row_subarray
      ≡ 2 ^ p.active_sub_rows
  cut_rows =
      cut_off_within _ _ p.active_sub_rows p.sub_rows active_column request-row z.active_sub_rows

  pub request-active :
      active_subarrays (mat_request d cell b r) ≡ 2 ^ (p.active_sub_columns + p.active_sub_rows)
  request-active =
      ap₂ (λ (x y : ℕ). x * y) cut_columns cut_rows
      ∙ sym (pow2-add p.active_sub_columns p.active_sub_rows)

  widened :
      p.per_set ≤ p.way
      → degree (mat_muxes d b.memory_type cell b r)
        ≡ degree (point_muxes d b) * 2 ^ (p.way - p.per_set)
  widened le =
      let per_row : int_pow2 d r.broadcast / b.point.num_row_per_set ≡ 2 ^ (p.way - p.per_set) =
        rw (ways, p.num_row_per_set, ← pow2_quotient p.way p.per_set le)
          (mul-div_cancel (2 ^ (p.way - p.per_set)) (pow2_pos p.per_set)) in
      rw (kind, per_row)
        (degree-widen_muxes exact cell (p.way - p.per_set) (point_muxes d b) (omega (arith, z.way)))

  request-degree : mux_degree (mat_request d cell b r) ≡ degree (mat_muxes d b.memory_type cell b r)
  unfolding mat_request
  request-degree = refl

  point_degree : degree (point_muxes d b) ≡ 2 ^ (p.mux0 + p.mux1 + p.mux2)
  point_degree =
      rw
        (
          p.mux_sense_amp,
          p.mux_output_lev1,
          p.mux_output_lev2,
          pow2-add (p.mux0 + p.mux1) p.mux2,
          pow2-add p.mux0 p.mux1,
        )
        refl

  pub request-mux :
      p.per_set ≤ p.way
      → mux_degree (mat_request d cell b r) ≡ 2 ^ (p.mux0 + p.mux1 + p.mux2 + (p.way - p.per_set))
  request-mux le =
      request-degree
      ∙ widened le
      ∙ ap (λ (t : ℕ). t * 2 ^ (p.way - p.per_set)) point_degree
      ∙ sym (pow2-add (p.mux0 + p.mux1 + p.mux2) (p.way - p.per_set))

  -- The quotient of powers of two of which the logarithm is taken.
  gated :
      2 ^ p.sub_rows * 2 ^ p.sub_columns / 2 ^ p.active_sub_rows / 2 ^ p.active_sub_columns
      ≡ 2 ^ (p.sub_rows + p.sub_columns - p.active_sub_rows - p.active_sub_columns)
  gated =
      ap (λ (t : ℕ). t / 2 ^ p.active_sub_rows / 2 ^ p.active_sub_columns)
        (sym (pow2-add p.sub_rows p.sub_columns))
      ∙ ap (λ (t : ℕ). t / 2 ^ p.active_sub_columns)
          (power_quotient exact (p.sub_rows + p.sub_columns) p.active_sub_rows
            (omega (arith, z.active_sub_rows)))
      ∙ power_quotient exact (p.sub_rows + p.sub_columns - p.active_sub_rows) p.active_sub_columns
          (omega (arith, z.active_sub_rows, z.active_sub_columns))

  pub request-gating :
      gating_bits d (mat_request d cell b r)
      ≡ p.sub_rows + p.sub_columns - p.active_sub_rows - p.active_sub_columns
  unfolding gating_bits
  request-gating =
      rw (cut_columns, cut_rows, request-row, request-column, gated)
        (whole_log2_power exact _ (omega (arith, z.subs)))

  pub request-address : (mat_request d cell b r).num_address_bit ≡ r.address
  unfolding mat_request
  request-address = refl
