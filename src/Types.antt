-- ===== src/Types.antt =====
-- typedef.h: the enumerations of the design space. An enumeration that the source also counts
-- through as an `int` comes with its number.
use nvsim.Shared.{ℕ}

pub data MemCellType : Type 0 where
  sram dram edram mram pcram memristor fbram slcnand mlcnand : MemCellType

pub data CellAccessType : Type 0 where
  cmos_access bjt_access diode_access none_access : CellAccessType

pub data DeviceRoadmap : Type 0 where
  hp lstp lop : DeviceRoadmap

pub data WireType : Type 0 where
  local_aggressive local_conservative semi_aggressive semi_conservative : WireType
  global_aggressive global_conservative dram_wordline : WireType

pub data WireRepeaterType : Type 0 where
  repeated_none repeated_opt repeated_5 repeated_10 : WireRepeaterType
  repeated_20 repeated_30 repeated_40 repeated_50 : WireRepeaterType

pub data BufferDesignTarget : Type 0 where
  latency_first latency_area_trade_off area_first : BufferDesignTarget

pub data MemoryType : Type 0 where
  data_array tag cam : MemoryType

pub data RoutingMode : Type 0 where
  h_tree non_h_tree : RoutingMode

pub data WriteScheme : Type 0 where
  set_before_reset reset_before_set erase_before_set : WriteScheme
  erase_before_reset write_and_verify normal_write : WriteScheme

pub data DesignTarget : Type 0 where
  cache ram_chip cam_chip : DesignTarget

pub data OptimizationTarget : Type 0 where
  read_latency_optimized write_latency_optimized : OptimizationTarget
  read_energy_optimized write_energy_optimized : OptimizationTarget
  read_edp_optimized write_edp_optimized : OptimizationTarget
  leakage_optimized area_optimized full_exploration : OptimizationTarget

pub data CacheAccessMode : Type 0 where
  normal_access_mode sequential_access_mode fast_access_mode : CacheAccessMode

-- The numbers that the declarations write out.
abbrev pub wire_type_number : WireType → ℕ
wire_type_number local_aggressive = 0
wire_type_number local_conservative = 1
wire_type_number semi_aggressive = 2
wire_type_number semi_conservative = 3
wire_type_number global_aggressive = 4
wire_type_number global_conservative = 5
wire_type_number dram_wordline = 6

abbrev pub repeater_number : WireRepeaterType → ℕ
repeater_number repeated_none = 0
repeater_number repeated_opt = 1
repeater_number repeated_5 = 2
repeater_number repeated_10 = 3
repeater_number repeated_20 = 4
repeater_number repeated_30 = 5
repeater_number repeated_40 = 6
repeater_number repeated_50 = 7

abbrev pub buffer_number : BufferDesignTarget → ℕ
buffer_number latency_first = 0
buffer_number latency_area_trade_off = 1
buffer_number area_first = 2
