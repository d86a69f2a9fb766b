-- ===== src/Cell/Defaults.antt =====
-- MemCell.cpp: the constructor.
use nvsim.Shared.{ℕ, true, false}
use nvsim.Types.{MemCellType, CellAccessType}
use nvsim.Double.{Double, whole}
use nvsim.Cell.{MemCell}

module _ {D : Type 0} ⦃d : Double D⦄ where
  abbrev decimal_of : ℕ → ℕ → D
  decimal_of m e = d.decimal m e

  -- The argument is what the memory holds: the members that the constructor leaves alone keep it.
  unfoldable pub new_mem_cell : MemCell D → MemCell D
  new_mem_cell memory = record memory {
    mem_cell_type = MemCellType.pcram;
    area = whole 0;
    aspect_ratio = whole 0;
    resistance_on = whole 0;
    resistance_off = whole 0;
    read_mode = true;
    read_voltage = whole 0;
    read_current = whole 0;
    read_power = whole 0;
    wordline_boost_ratio = decimal_of 10 1;
    reset_mode = true;
    reset_voltage = whole 0;
    reset_current = whole 0;
    min_sense_voltage = decimal_of 8 2;
    reset_pulse = whole 0;
    reset_energy = whole 0;
    set_mode = true;
    set_voltage = whole 0;
    set_current = whole 0;
    set_pulse = whole 0;
    access_type = CellAccessType.cmos_access;
    process_node = 0;
    set_energy = whole 0;
    stitching = 0;
    gate_ox_thickness_factor = whole 2;
    width_soi_device = whole 0;
    width_access_cmos = whole 0;
    voltage_drop_access_device = whole 0;
    leakage_current_access_device = whole 0;
    cap_dram_cell = whole 0;
    width_sram_cell_nmos = decimal_of 208 2;
    width_sram_cell_pmos = decimal_of 123 2;
    read_floating = false;
    resistance_on_at_set_voltage = whole 0;
    resistance_off_at_set_voltage = whole 0;
    resistance_on_at_reset_voltage = whole 0;
    resistance_off_at_reset_voltage = whole 0;
    resistance_on_at_read_voltage = whole 0;
    resistance_off_at_read_voltage = whole 0;
    resistance_on_at_half_read_voltage = whole 0;
    resistance_off_at_half_read_voltage = whole 0;
  }
