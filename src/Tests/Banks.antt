-- ===== src/Tests/Banks.antt =====
-- A bank of one megabyte.
use nvsim.Shared.{◌≡◌, refl, true, false, arith, Option, none, some, pos, []}
use nvsim.Types.{MemCellType, data_array}
use nvsim.Double.{whole_log2, log2_round}
use nvsim.Double.Tenths.{tenths, tenths-IsExact, floor_log2}
use nvsim.Mat.{MatShape, valid, shape, gating_bits}
use nvsim.Bank.Request.{BankRequest, widen_muxes, address_bits}
use nvsim.Bank.Htree.{
  initialize, routed, Tree, start, data_bits, route_all, first_level, narrow_all, lower_all,
  branch_all, branch_horizontal, branch_vertical, last_split, lower, narrow, split_column,
  split_row, split_last,
}
use nvsim.Bank.Htree.Powers.{Powers, Sizes, cell_count}
use nvsim.Bank.Htree.Capacity.{initialize-capacity}
use nvsim.Bank.Plain
use nvsim.Bank.Plain.Agree.{initialize-agrees}

abbrev megabyte : BankRequest
megabyte = record {
  point = record {
    num_row_mat = 4;
    num_column_mat = 4;
    num_active_mat_per_row = 2;
    num_active_mat_per_column = 2;
    num_row_subarray = 2;
    num_column_subarray = 2;
    num_active_subarray_per_row = 2;
    num_active_subarray_per_column = 2;
    mux_sense_amp = 4;
    mux_output_lev1 = 1;
    mux_output_lev2 = 1;
    num_row_per_set = 2;
    area_optimization_level = 0;
  };
  capacity = 8388608;
  block_size = 512;
  associativity = 8;
  internal_sense_amp = true;
  memory_type = data_array;
}

abbrev exponents : Powers megabyte
exponents = record {
  cap = 23;
  blk = 9;
  way = 3;
  rows = 2;
  columns = 2;
  active_rows = 1;
  active_columns = 1;
  sub_rows = 1;
  sub_columns = 1;
  active_sub_rows = 1;
  active_sub_columns = 1;
  mux0 = 2;
  mux1 = 0;
  mux2 = 0;
  per_set = 1;
  capacity = refl;
  block_size = refl;
  associativity = refl;
  num_row_mat = refl;
  num_column_mat = refl;
  num_active_mat_per_column = refl;
  num_active_mat_per_row = refl;
  num_row_subarray = refl;
  num_column_subarray = refl;
  num_active_subarray_per_column = refl;
  num_active_subarray_per_row = refl;
  mux_sense_amp = refl;
  mux_output_lev1 = refl;
  mux_output_lev2 = refl;
  num_row_per_set = refl;
}

sizes : Sizes exponents
sizes = record {
  active_rows = omega arith;
  active_columns = omega arith;
  active_sub_rows = omega arith;
  active_sub_columns = omega arith;
  words = omega arith;
  cap = omega arith;
  way = omega arith;
  rows = omega arith;
  columns = omega arith;
  subs = omega arith;
}

abbrev subarray : MatShape
subarray = record { num_row = 256; num_column = 512; num_address_bit = 9 }

megabyte-shape : initialize tenths MemCellType.sram megabyte ≡ valid subarray
unfolding initialize start data_bits route_all first_level narrow_all lower_all branch_all
    branch_horizontal branch_vertical last_split lower narrow split_column split_row split_last
    widen_muxes shape gating_bits address_bits floor_log2 whole_log2 log2_round
megabyte-shape = refl

initialize-capacity_example : cell_count megabyte subarray ≡ megabyte.capacity
initialize-capacity_example =
    initialize-capacity tenths-IsExact exponents sizes MemCellType.sram subarray refl megabyte-shape

abbrev tree_or : Tree → Option Tree → Tree
tree_or t none = t
tree_or t (some u) = u

abbrev route : Tree
route =
    tree_or
      (record {
        route = record {
          distribute = 0;
          broadcast = 0;
          address = pos 0;
          row_to_active = 0;
          column_to_active = 0;
        };
        horizontal = [];
        vertical = [];
        h_temp = 0;
        v_temp = 0;
      })
      (routed tenths megabyte)

megabyte-route : routed tenths megabyte ≡ some route
unfolding routed start data_bits route_all first_level narrow_all lower_all branch_all
    branch_horizontal branch_vertical last_split lower narrow split_column split_row split_last
    address_bits floor_log2 whole_log2 log2_round
megabyte-route = refl

initialize-agrees_example :
    Plain.initialize tenths MemCellType.sram false megabyte
    ≡ initialize tenths MemCellType.sram megabyte
initialize-agrees_example =
    initialize-agrees tenths-IsExact exponents sizes MemCellType.sram false route refl refl
      (omega arith) megabyte-route
