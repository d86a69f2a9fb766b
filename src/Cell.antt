-- ===== src/Cell.antt =====
-- MemCell.h and MemCell.cpp: a memory cell. The process node and the stitching count are natural numbers.
pub mod Defaults
pub mod Keys
pub mod Modes
pub mod Reader
pub mod Energy
pub mod WriteEnergy
pub mod Scaling
use nvsim.Shared.{ℕ, Bool}
use nvsim.Types.{MemCellType, CellAccessType}

pub record MemCell (D : Type 0) : Type 0 where
  pub mem_cell_type : MemCellType
  pub process_node : ℕ
  pub area : D
  pub aspect_ratio : D
  pub width_in_feature_size : D
  pub height_in_feature_size : D
  pub resistance_on : D
  pub resistance_off : D
  pub capacitance_on : D
  pub capacitance_off : D
  pub read_mode : Bool
  pub read_voltage : D
  pub read_current : D
  pub min_sense_voltage : D
  pub wordline_boost_ratio : D
  pub read_power : D
  pub reset_mode : Bool
  pub reset_voltage : D
  pub reset_current : D
  pub reset_pulse : D
  pub reset_energy : D
  pub set_mode : Bool
  pub set_voltage : D
  pub set_current : D
  pub set_pulse : D
  pub set_energy : D
  pub access_type : CellAccessType
  pub stitching : ℕ
  pub gate_ox_thickness_factor : D
  pub width_soi_device : D
  pub width_access_cmos : D
  pub voltage_drop_access_device : D
  pub leakage_current_access_device : D
  pub cap_dram_cell : D
  pub width_sram_cell_nmos : D
  pub width_sram_cell_pmos : D
  pub read_floating : Bool
  pub resistance_on_at_set_voltage : D
  pub resistance_off_at_set_voltage : D
  pub resistance_on_at_reset_voltage : D
  pub resistance_off_at_reset_voltage : D
  pub resistance_on_at_read_voltage : D
  pub resistance_off_at_read_voltage : D
  pub resistance_on_at_half_read_voltage : D
  pub resistance_off_at_half_read_voltage : D
  pub resistance_on_at_half_reset_voltage : D
  pub flash_erase_voltage : D
  pub flash_pass_voltage : D
  pub flash_program_voltage : D
  pub flash_erase_time : D
  pub flash_program_time : D
  pub gate_coupling_ratio : D
