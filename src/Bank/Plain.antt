-- ===== src/Bank/Plain.antt =====
-- BankWithoutHtree.cpp: BankWithoutHtree::Initialize up to the call of `mat.Initialize`, all mats being
-- reached in one step. Of external sense amplifiers it has the first tests.
pub mod Agree
use package.nvsim.Shared.{
  ℕ, ◌*◌, ◌/◌, ◌==◌, leb, Bool, true, false, not, ◌&&◌, ◌||◌, if◌then◌else◌, ℤ, minus,
}
use package.nvsim.Types.{MemoryType, MemCellType, data_array, tag, cam}
use package.nvsim.Double.{Double, whole_log2}
use package.nvsim.Mat.{Outcome, invalid, MatRequest, MatShape, shape, cut_off}
use package.nvsim.Bank.Request.{BankRequest, Muxes, is_dram, address_bits, widen_muxes}

abbrev pub active_rows : BankRequest → ℕ
active_rows b = cut_off b.point.num_active_mat_per_column b.point.num_row_mat

abbrev pub active_columns : BankRequest → ℕ
active_columns b = cut_off b.point.num_active_mat_per_row b.point.num_column_mat

-- What each of the active mats gets of a number of bits or ways.
abbrev pub per_mat : BankRequest → ℕ → ℕ
per_mat b n = n / active_rows b / active_columns b

module _ {D : Type 0} (d : Double D) where
  -- The address bits that gate inactive mats, of products within an `int`.
  unfoldable pub gating_bits : BankRequest → ℕ
  gating_bits b =
      whole_log2 d (b.point.num_row_mat * b.point.num_column_mat / active_rows b / active_columns b)

  unfoldable pub address_to_mat : BankRequest → ℤ
  address_to_mat b = minus (address_bits d b) (gating_bits b)

  -- Whether the ways of a set fit the rows and the mat.
  abbrev pub ways_fit : MemoryType → BankRequest → Bool
  ways_fit data_array b = leb b.point.num_row_per_set b.associativity
  ways_fit tag b = leb b.point.num_row_per_set 1 && not (per_mat b b.associativity == 0)
  ways_fit cam b = true

  -- The data bits and ways of a mat.
  abbrev pub mat_columns : MemoryType → BankRequest → ℕ × ℕ
  mat_columns data_array b = (per_mat b b.block_size, b.associativity)
  mat_columns tag b = (b.block_size, per_mat b b.associativity)
  mat_columns cam b = (b.block_size, 1)

  abbrev point_muxes : BankRequest → Muxes
  point_muxes b = record {
    sense_amp = b.point.mux_sense_amp;
    output_lev1 = b.point.mux_output_lev1;
    output_lev2 = b.point.mux_output_lev2;
  }

  abbrev pub mat_muxes : MemoryType → MemCellType → BankRequest → Muxes
  mat_muxes data_array cell b =
      widen_muxes d cell (b.associativity / b.point.num_row_per_set) (point_muxes b)
  mat_muxes tag cell b = point_muxes b
  mat_muxes cam cell b = point_muxes b

  -- The call of `mat.Initialize`.
  unfoldable pub mat_request : MemCellType → BankRequest → MatRequest
  mat_request cell b =
      let m = mat_muxes b.memory_type cell b in
      let (columns, ways) = mat_columns b.memory_type b in
      record {
        num_row_subarray = b.point.num_row_subarray;
        num_column_subarray = b.point.num_column_subarray;
        num_address_bit = address_to_mat b;
        num_data_bit = columns;
        num_way = ways;
        num_row_per_set = b.point.num_row_per_set;
        num_active_subarray_per_row =
            cut_off b.point.num_active_subarray_per_row b.point.num_column_subarray;
        num_active_subarray_per_column =
            cut_off b.point.num_active_subarray_per_column b.point.num_row_subarray;
        mux_sense_amp = m.sense_amp;
        mux_output_lev1 = m.output_lev1;
        mux_output_lev2 = m.output_lev2;
        memory_type = b.memory_type;
      }

  unfoldable pub finish : MemCellType → BankRequest → Outcome MatShape
  finish cell b = if ways_fit b.memory_type b then shape d (mat_request cell b) else invalid

  -- With the shape of the mats; the flag is whether the global wire has repeaters.
  unfoldable pub initialize : MemCellType → Bool → BankRequest → Outcome MatShape
  initialize cell repeated b =
      if not b.internal_sense_amp && (is_dram cell || repeated) then invalid else finish cell b
