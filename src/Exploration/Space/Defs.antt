-- ===== src/Exploration/Space/Defs.antt =====
-- macros.h: BIGFOR, REDUCE_SEARCH_SIZE and RESTORE_SEARCH_SIZE.
use nvsim.Shared.{ℕ, min, some, [], ◌∷◌}
use nvsim.Input.{Range, SearchSpace, InputParameter, between, exactly}
use nvsim.Exploration.Enumeration.{Enumeration, doubling, counting, ◌>>=◌}

-- The values of the thirteen loop variables.
pub record DesignPoint : Type 0 where
  pub num_row_mat : ℕ
  pub num_column_mat : ℕ
  pub num_active_mat_per_row : ℕ
  pub num_active_mat_per_column : ℕ
  pub num_row_subarray : ℕ
  pub num_column_subarray : ℕ
  pub num_active_subarray_per_row : ℕ
  pub num_active_subarray_per_column : ℕ
  pub mux_sense_amp : ℕ
  pub mux_output_lev1 : ℕ
  pub mux_output_lev2 : ℕ
  pub num_row_per_set : ℕ
  pub area_optimization_level : ℕ

-- A range whose ends are cut off at `n` by MIN.
abbrev pub clip : ℕ → Range → Range
clip n r = record { low = min n r.low; high = min n r.high }

-- The range of the rows per set, whose upper end alone is cut off.
abbrev pub clip_high : ℕ → Range → Range
clip_high n r = record { low = r.low; high = min r.high n }

abbrev pub doubling_over : Range → Enumeration ℕ
doubling_over r = doubling r.low r.high

-- BIGFOR, for a body that sees the point: the points in the order of the nested loops.
unfoldable pub big_for : SearchSpace → ℕ → Enumeration DesignPoint
big_for s associativity = do
  num_row_mat ← doubling_over s.num_row_mat
  num_column_mat ← doubling_over s.num_column_mat
  num_active_mat_per_row ← doubling_over (clip num_column_mat s.num_active_mat_per_row)
  num_active_mat_per_column ← doubling_over (clip num_row_mat s.num_active_mat_per_column)
  num_row_subarray ← doubling_over s.num_row_subarray
  num_column_subarray ← doubling_over s.num_column_subarray
  num_active_subarray_per_row ←
      doubling_over (clip num_column_subarray s.num_active_subarray_per_row)
  num_active_subarray_per_column ←
      doubling_over (clip num_row_subarray s.num_active_subarray_per_column)
  mux_sense_amp ← doubling_over s.mux_sense_amp
  mux_output_lev1 ← doubling_over s.mux_output_lev1
  mux_output_lev2 ← doubling_over s.mux_output_lev2
  num_row_per_set ← doubling_over (clip_high associativity s.num_row_per_set)
  area_optimization_level ← counting s.area_optimization_level.low s.area_optimization_level.high
  some (
      record {
        num_row_mat = num_row_mat;
        num_column_mat = num_column_mat;
        num_active_mat_per_row = num_active_mat_per_row;
        num_active_mat_per_column = num_active_mat_per_column;
        num_row_subarray = num_row_subarray;
        num_column_subarray = num_column_subarray;
        num_active_subarray_per_row = num_active_subarray_per_row;
        num_active_subarray_per_column = num_active_subarray_per_column;
        mux_sense_amp = mux_sense_amp;
        mux_output_lev1 = mux_output_lev1;
        mux_output_lev2 = mux_output_lev2;
        num_row_per_set = num_row_per_set;
        area_optimization_level = area_optimization_level;
      }
      ∷ [])

module _ {D : Type 0} where
  unfoldable pub reduce_search_size : InputParameter D → InputParameter D
  reduce_search_size p = record p {
    search = record {
      num_row_mat = between 1 64;
      num_column_mat = between 1 64;
      num_active_mat_per_row = between 1 64;
      num_active_mat_per_column = between 1 64;
      num_row_subarray = between 1 2;
      num_column_subarray = between 1 2;
      num_active_subarray_per_row = between 1 2;
      num_active_subarray_per_column = between 1 2;
      mux_sense_amp = between 1 64;
      mux_output_lev1 = between 1 64;
      mux_output_lev2 = between 1 64;
      num_row_per_set = exactly 1;
      area_optimization_level = between 0 2;
      local_wire_type = between 0 1;
      global_wire_type = between 4 5;
      local_wire_repeater_type = between 0 1;
      global_wire_repeater_type = between 0 1;
      is_local_wire_low_swing = between 0 1;
      is_global_wire_low_swing = between 0 1;
    };
  }

  unfoldable pub restore_search_size : InputParameter D → InputParameter D
  restore_search_size p = record p {
    search = record {
      num_row_mat = between 1 512;
      num_column_mat = between 1 512;
      num_active_mat_per_row = between 1 512;
      num_active_mat_per_column = between 1 512;
      num_row_subarray = between 1 2;
      num_column_subarray = between 1 2;
      num_active_subarray_per_row = between 1 2;
      num_active_subarray_per_column = between 1 2;
      mux_sense_amp = between 1 256;
      mux_output_lev1 = between 1 256;
      mux_output_lev2 = between 1 256;
      num_row_per_set = between 1 p.associativity;
      area_optimization_level = between 0 2;
      local_wire_type = between 0 3;
      global_wire_type = between 2 5;
      local_wire_repeater_type = between 0 7;
      global_wire_repeater_type = between 0 7;
      is_local_wire_low_swing = between 0 1;
      is_global_wire_low_swing = between 0 1;
    };
  }
