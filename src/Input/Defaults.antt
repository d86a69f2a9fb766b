-- ===== src/Input/Defaults.antt =====
-- InputParameter.cpp: the constructor.
use nvsim.Shared.{ℕ, ◌^◌, true, false}
use nvsim.Types.{
  DesignTarget, OptimizationTarget, DeviceRoadmap, WriteScheme, CacheAccessMode, RoutingMode,
  BufferDesignTarget, WireType, WireRepeaterType, buffer_number, wire_type_number, repeater_number,
}
use nvsim.Double.{Double, whole}
use nvsim.Input.{SearchSpace, InputParameter, between}

-- The bounds of the search: those of the active counts are copied from the totals.
abbrev pub default_search : SearchSpace
default_search = record {
  num_row_mat = between 1 512;
  num_column_mat = between 1 512;
  num_active_mat_per_row = between 1 512;
  num_active_mat_per_column = between 1 512;
  num_row_subarray = between 1 2;
  num_column_subarray = between 1 2;
  num_active_subarray_per_row = between 1 2;
  num_active_subarray_per_column = between 1 2;
  mux_sense_amp = between 1 256;
  mux_output_lev1 = between 1 256;
  mux_output_lev2 = between 1 256;
  num_row_per_set = between 1 256;
  area_optimization_level =
      between (buffer_number BufferDesignTarget.latency_first)
        (buffer_number BufferDesignTarget.area_first);
  local_wire_type =
      between (wire_type_number WireType.local_aggressive)
        (wire_type_number WireType.local_conservative);
  global_wire_type =
      between (wire_type_number WireType.global_aggressive)
        (wire_type_number WireType.global_conservative);
  local_wire_repeater_type =
      between (repeater_number WireRepeaterType.repeated_none)
        (repeater_number WireRepeaterType.repeated_50);
  global_wire_repeater_type =
      between (repeater_number WireRepeaterType.repeated_none)
        (repeater_number WireRepeaterType.repeated_50);
  is_local_wire_low_swing = between 0 1;
  is_global_wire_low_swing = between 0 1;
}

module _ {D : Type 0} ⦃d : Double D⦄ where
  -- The arguments are what the memory holds in the members that the constructor leaves alone.
  unfoldable pub new_input_parameter : ℕ → ℕ → DeviceRoadmap → ℕ → InputParameter D
  new_input_parameter capacity word_width roadmap temperature = record {
    design_target = DesignTarget.cache;
    optimization_target = OptimizationTarget.read_latency_optimized;
    process_node = 90;
    capacity = capacity;
    word_width = word_width;
    device_roadmap = roadmap;
    file_mem_cell = "";
    temperature = temperature;
    max_driver_current = whole 0;
    write_scheme = WriteScheme.normal_write;
    read_latency_constraint = whole (10 ^ 41);
    write_latency_constraint = whole (10 ^ 41);
    read_dynamic_energy_constraint = whole (10 ^ 41);
    write_dynamic_energy_constraint = whole (10 ^ 41);
    leakage_constraint = whole (10 ^ 41);
    area_constraint = whole (10 ^ 41);
    read_edp_constraint = whole (10 ^ 41);
    write_edp_constraint = whole (10 ^ 41);
    is_constraint_applied = false;
    is_pruning_enabled = false;
    use_cacti_assumption = false;
    associativity = 1;
    cache_access_mode = CacheAccessMode.normal_access_mode;
    page_size = 0;
    flash_block_size = 0;
    routing_mode = RoutingMode.h_tree;
    internal_sensing = true;
    max_nmos_size = whole 100;
    output_file_prefix = "output";
    search = default_search;
  }
