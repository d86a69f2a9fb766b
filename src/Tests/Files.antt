-- ===== src/Tests/Files.antt =====
-- The input files and the memory cell.
use Prim.Native.String.{String}
use nvsim.Shared.{ℕ, ◌≡◌, ◌*◌, refl, true, false, Option, none, some, List, [], ◌∷◌, arith}
use mathlib.Core.Option.{map}
use nvsim.Types.{DeviceRoadmap, MemCellType, CellAccessType}
use nvsim.Double.Tenths.{Tenths, tenths}
use nvsim.Config.{State, Entry, run, lookup, starts_with, with_word, scan_int, get_or_else}
use nvsim.Config.Keeps.{Holds}
use nvsim.Config.Longest.{IsLongest}
use nvsim.Input.{InputParameter, SearchSpace}
use nvsim.Input.Defaults.{new_input_parameter}
use nvsim.Input.Ranges.{IsOrdered, read_input_parameter-Ordered, new_input_parameter-Ordered}
use nvsim.Input.Bounding.{buffer_design}
use nvsim.Input.Dispatch.{parameter_keys-longest}
use nvsim.Input.Reader.{parameter_keys, read_input_parameter}
use nvsim.Cell.{MemCell}
use nvsim.Cell.Modes.{real}
use nvsim.Cell.Defaults.{new_mem_cell}
use nvsim.Cell.Reader.{cell_keys, cell_keys-longest}
use nvsim.Cell.Energy.{calculate_write_energy}
use nvsim.Cell.Scaling.{cell_scaling, cell_scaling-idempotent}
use nvsim.Cell.WriteEnergy.{
  mirror, calculate_write_energy-idempotent, calculate_write_energy-mirror,
  calculate_write_energy-set_without_supply,
}

-- Whole numbers, in tenths.
abbrev whole_tenths : Option (ℕ × String) → Option Tenths
whole_tenths none = none
whole_tenths (some r) = some (10 * r.0)

abbrev strtod : String → Option Tenths
strtod s = whole_tenths (scan_int s)

abbrev defaults : InputParameter Tenths
defaults = new_input_parameter ⦃d = tenths⦄ 0 0 DeviceRoadmap.hp 0

abbrev some_lines : List String
some_lines =
    "-DesignTarget: RAM" ∷ "-Capacity (MB): 2" ∷ "-ForceBank (Total AxB, Active CxD): 4x8, 2x1"
    ∷ "-BufferDesignOptimization: area" ∷ "-UseCactiAssumption: Yes" ∷ []

abbrev search_of : Option (State (InputParameter Tenths)) → Option SearchSpace
search_of r = map (λ s. s.value.search) r

abbrev figures : SearchSpace → List ℕ
figures s =
    s.num_row_mat.high ∷ s.num_column_mat.low ∷ s.num_active_mat_per_row.low
    ∷ s.area_optimization_level.high ∷ s.num_row_per_set.high ∷ []

forces_the_bank :
    map figures (search_of (read_input_parameter strtod some_lines defaults))
    ≡ some (4 ∷ 8 ∷ 8 ∷ 2 ∷ 1 ∷ [])
unfolding read_input_parameter with_word new_input_parameter
forces_the_bank = refl

read_input_parameter-Ordered_example :
    Holds IsOrdered (read_input_parameter strtod some_lines defaults)
read_input_parameter-Ordered_example =
    read_input_parameter-Ordered strtod some_lines defaults
      (new_input_parameter-Ordered strtod ⦃d = tenths⦄ 0 0 DeviceRoadmap.hp 0)

abbrev buffer_line : String
buffer_line = "-BufferDesignOptimization: area"

abbrev at_defaults : State (InputParameter Tenths)
at_defaults = record { tmp = none; value = defaults }

buffer-IsLongest : IsLongest "-BufferDesignOptimization" buffer_line (parameter_keys strtod)
unfolding starts_with parameter_keys
buffer-IsLongest = ground arith

parameter_keys-longest_example :
    run (parameter_keys strtod) buffer_line at_defaults
    ≡ buffer_design.action buffer_line at_defaults
unfolding lookup starts_with parameter_keys
parameter_keys-longest_example =
    parameter_keys-longest strtod buffer_line at_defaults buffer_design refl refl buffer-IsLongest

-- A cell with zero everywhere.
abbrev pub zero_cell : MemCell Tenths
zero_cell = record {
  mem_cell_type = MemCellType.pcram;
  process_node = 0;
  area = 0;
  aspect_ratio = 0;
  width_in_feature_size = 0;
  height_in_feature_size = 0;
  resistance_on = 0;
  resistance_off = 0;
  capacitance_on = 0;
  capacitance_off = 0;
  read_mode = true;
  read_voltage = 0;
  read_current = 0;
  min_sense_voltage = 0;
  wordline_boost_ratio = 0;
  read_power = 0;
  reset_mode = true;
  reset_voltage = 0;
  reset_current = 0;
  reset_pulse = 0;
  reset_energy = 0;
  set_mode = true;
  set_voltage = 0;
  set_current = 0;
  set_pulse = 0;
  set_energy = 0;
  access_type = CellAccessType.cmos_access;
  stitching = 0;
  gate_ox_thickness_factor = 0;
  width_soi_device = 0;
  width_access_cmos = 0;
  voltage_drop_access_device = 0;
  leakage_current_access_device = 0;
  cap_dram_cell = 0;
  width_sram_cell_nmos = 0;
  width_sram_cell_pmos = 0;
  read_floating = true;
  resistance_on_at_set_voltage = 0;
  resistance_off_at_set_voltage = 0;
  resistance_on_at_reset_voltage = 0;
  resistance_off_at_reset_voltage = 0;
  resistance_on_at_read_voltage = 0;
  resistance_off_at_read_voltage = 0;
  resistance_on_at_half_read_voltage = 0;
  resistance_off_at_half_read_voltage = 0;
  resistance_on_at_half_reset_voltage = 0;
  flash_erase_voltage = 0;
  flash_pass_voltage = 0;
  flash_program_voltage = 0;
  flash_erase_time = 0;
  flash_program_time = 0;
  gate_coupling_ratio = 0;
}

abbrev some_cell : MemCell Tenths
some_cell = new_mem_cell ⦃d = tenths⦄ zero_cell

-- The first of two blocks of one key, which a shorter key begins.
abbrev resistance_line : String
resistance_line = "-ResistanceOnAtReadVoltage (ohm): 3"

abbrev at_cell : State (MemCell Tenths)
at_cell = record { tmp = none; value = some_cell }

resistance-IsLongest :
    IsLongest "-ResistanceOnAtReadVoltage" resistance_line (cell_keys tenths strtod)
unfolding starts_with cell_keys
resistance-IsLongest = ground arith

abbrev resistance_entry : Entry (MemCell Tenths)
resistance_entry =
    real strtod "-ResistanceOnAtReadVoltage" "-ResistanceOnAtReadVoltage (ohm): " (λ x c.
      let value = get_or_else x c.resistance_on_at_read_voltage in
      record c { resistance_on_at_read_voltage = value; resistance_on = value })

cell_keys-longest_example :
    run (cell_keys tenths strtod) resistance_line at_cell
    ≡ resistance_entry.action resistance_line at_cell
unfolding lookup starts_with cell_keys
cell_keys-longest_example =
    cell_keys-longest tenths strtod resistance_line at_cell resistance_entry refl refl
      resistance-IsLongest

-- A PCRAM cell at 90 nm that is set by a current at no set voltage.
abbrev current_cell : MemCell Tenths
current_cell = record zero_cell {
  process_node = 90;
  set_mode = false;
  set_current = 30;
  set_pulse = 20;
  reset_voltage = 20;
  resistance_on = 40;
  reset_pulse = 10;
}

cell_scaling-idempotent_example :
    cell_scaling ⦃d = tenths⦄ 45 (cell_scaling ⦃d = tenths⦄ 45 current_cell)
    ≡ cell_scaling ⦃d = tenths⦄ 45 current_cell
cell_scaling-idempotent_example = cell_scaling-idempotent ⦃d = tenths⦄ 45 current_cell

calculate_write_energy-idempotent_example :
    calculate_write_energy ⦃d = tenths⦄ 11 (calculate_write_energy ⦃d = tenths⦄ 11 current_cell)
    ≡ calculate_write_energy ⦃d = tenths⦄ 11 current_cell
calculate_write_energy-idempotent_example =
    calculate_write_energy-idempotent ⦃d = tenths⦄ 11 current_cell

abbrev voltage_cell : MemCell Tenths
voltage_cell = record current_cell { set_voltage = 15 }

calculate_write_energy-mirror_example :
    calculate_write_energy ⦃d = tenths⦄ 11 (mirror ⦃d = tenths⦄ voltage_cell)
    ≡ mirror ⦃d = tenths⦄ (calculate_write_energy ⦃d = tenths⦄ 11 voltage_cell)
calculate_write_energy-mirror_example =
    calculate_write_energy-mirror ⦃d = tenths⦄ 11 voltage_cell refl

calculate_write_energy-set_without_supply_example :
    (calculate_write_energy ⦃d = tenths⦄ 11 current_cell).set_energy
    ≡ (calculate_write_energy ⦃d = tenths⦄ 25 current_cell).set_energy
calculate_write_energy-set_without_supply_example =
    calculate_write_energy-set_without_supply ⦃d = tenths⦄ 11 25 current_cell refl refl
