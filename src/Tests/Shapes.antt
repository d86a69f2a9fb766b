-- ===== src/Tests/Shapes.antt =====
-- The shapes of banks and mats.
use nvsim.Shared.{ℕ, ◌≡◌, refl, ◌^◌, ◌*◌, ◌+◌, ◌/◌, pos, Option, none, some, [], arith}
use nvsim.Types.{MemCellType, data_array}
use nvsim.Double.Tenths.{tenths, tenths-IsExact}
use nvsim.Bank.Request.{Muxes, degree, widen_muxes}
use nvsim.Bank.Muxes.{degree-widen_muxes}
use nvsim.Bank.Htree.{
  Tree, route_all, first_level, narrow_all, lower_all, branch_all, branch_horizontal,
  branch_vertical, last_split, lower, narrow, split_column, split_row, split_last,
}
use nvsim.Bank.Htree.Routing.{Routed}
use nvsim.Bank.Htree.Tracked.{IsRouted, route_all-IsRouted}
use nvsim.Mat.{MatRequest, MatShape, valid, shape_from, active_subarrays, cut_off}
use nvsim.Mat.Shape.{cells_data}

abbrev some_muxes : Muxes
some_muxes = record { sense_amp = 4; output_lev1 = 2; output_lev2 = 1 }

degree-widen_muxes_example :
    degree (widen_muxes tenths MemCellType.sram (2 ^ 3) some_muxes) ≡ degree some_muxes * 2 ^ 3
degree-widen_muxes_example =
    degree-widen_muxes tenths-IsExact MemCellType.sram 3 some_muxes (omega arith)

-- 512 data bits and 10 address bits over 4 by 4 mats, of which 2 by 1 are active.
abbrev trunk : Tree
trunk = record {
  route = record {
    address = pos 10;
    distribute = 512;
    broadcast = 0;
    row_to_active = 1;
    column_to_active = 2;
  };
  horizontal = [];
  vertical = [];
  h_temp = 2;
  v_temp = 2;
}

abbrev tree_of : Option Tree → Tree
tree_of none = trunk
tree_of (some t) = t

-- The tree that two levels each way leave.
abbrev grown : Tree
grown = tree_of (route_all 2 2 trunk)

trunk-Routed : Routed 512 10 1 0 0 0 0 trunk.route
trunk-Routed = record {
  column = refl;
  row = refl;
  distribute = refl;
  broadcasts = refl;
  left = 10;
  address = refl;
  spent = refl;
}

trunk_grows : route_all 2 2 trunk ≡ some grown
unfolding route_all first_level narrow_all lower_all branch_all branch_horizontal branch_vertical
    last_split lower narrow split_column split_row split_last
trunk_grows = refl

route_all-IsRouted_example : IsRouted 512 10 1 0 0 2 2 grown
route_all-IsRouted_example =
    route_all-IsRouted 512 10 1 0 0 2 2 trunk grown (omega arith) trunk_grows trunk-Routed refl refl

-- Two ways share the rows; 512 bits over 2 by 2 subarrays.
abbrev some_mat : MatRequest
some_mat = record {
  num_row_subarray = 2;
  num_column_subarray = 2;
  num_address_bit = pos 9;
  num_data_bit = 512 / 2;
  num_way = 2;
  num_row_per_set = 1;
  num_active_subarray_per_row = 2;
  num_active_subarray_per_column = 2;
  mux_sense_amp = 4;
  mux_output_lev1 = 2;
  mux_output_lev2 = 1;
  memory_type = data_array;
}

abbrev some_shape : MatShape
some_shape = record { num_row = 128; num_column = 512; num_address_bit = 9 }

some_mat-shape : shape_from some_mat (pos 9) ≡ valid some_shape
unfolding shape_from cut_off
some_mat-shape = refl

two_by_two : active_subarrays some_mat ≡ 2 ^ 2
unfolding cut_off
two_by_two = refl

cells_data_example : (n : ℕ) × (pos 9 ≡ pos n) × (128 * 512 * 2 ^ (1 + 2) ≡ 2 ^ (n + 1) * 2 ^ 9)
cells_data_example =
    cells_data some_mat (pos 9) some_shape 1 3 9 1 2 refl refl refl refl two_by_two some_mat-shape
