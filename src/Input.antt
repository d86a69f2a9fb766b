-- ===== src/Input.antt =====
-- InputParameter.h and InputParameter.cpp: the design specification and the bounds of the search.
-- Each pair `minX`, `maxX` of the source is one `Range`. Counts are natural numbers.
pub mod Defaults
pub mod Words
pub mod Design
pub mod Searching
pub mod Bounding
pub mod Reader
pub mod Ranges
pub mod Dispatch
use Prim.Native.String.{String}
use nvsim.Shared.{ℕ, Bool, true, false}
use nvsim.Types.{
  DesignTarget, OptimizationTarget, DeviceRoadmap, WriteScheme, CacheAccessMode, RoutingMode,
}

pub record Range : Type 0 where
  pub low : ℕ
  pub high : ℕ

-- Both ends at one value.
abbrev pub exactly : ℕ → Range
exactly n = record { low = n; high = n }

abbrev pub between : ℕ → ℕ → Range
between a b = record { low = a; high = b }

pub record SearchSpace : Type 0 where
  pub num_row_mat : Range
  pub num_column_mat : Range
  pub num_active_mat_per_row : Range
  pub num_active_mat_per_column : Range
  pub num_row_subarray : Range
  pub num_column_subarray : Range
  pub num_active_subarray_per_row : Range
  pub num_active_subarray_per_column : Range
  pub mux_sense_amp : Range
  pub mux_output_lev1 : Range
  pub mux_output_lev2 : Range
  pub num_row_per_set : Range
  pub area_optimization_level : Range
  pub local_wire_type : Range
  pub global_wire_type : Range
  pub local_wire_repeater_type : Range
  pub global_wire_repeater_type : Range
  pub is_local_wire_low_swing : Range
  pub is_global_wire_low_swing : Range

-- A member that the constructor leaves uninitialised has an arbitrary value in the model.
pub record InputParameter (D : Type 0) : Type 0 where
  pub design_target : DesignTarget
  pub optimization_target : OptimizationTarget
  pub process_node : ℕ
  pub capacity : ℕ
  pub word_width : ℕ
  pub device_roadmap : DeviceRoadmap
  pub file_mem_cell : String
  pub temperature : ℕ
  pub max_driver_current : D
  pub write_scheme : WriteScheme
  pub read_latency_constraint : D
  pub write_latency_constraint : D
  pub read_dynamic_energy_constraint : D
  pub write_dynamic_energy_constraint : D
  pub leakage_constraint : D
  pub area_constraint : D
  pub read_edp_constraint : D
  pub write_edp_constraint : D
  pub is_constraint_applied : Bool
  pub is_pruning_enabled : Bool
  pub use_cacti_assumption : Bool
  pub associativity : ℕ
  pub cache_access_mode : CacheAccessMode
  pub page_size : ℕ
  pub flash_block_size : ℕ
  pub routing_mode : RoutingMode
  pub internal_sensing : Bool
  pub max_nmos_size : D
  pub output_file_prefix : String
  pub search : SearchSpace
