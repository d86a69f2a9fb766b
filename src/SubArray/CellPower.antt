-- ===== src/SubArray/CellPower.antt =====
-- SubArray.cpp: the energies of the cells in SubArray::CalculatePower. It fills in the write energies of the global cell, so the cell
-- is a part of its result.
use nvsim.Shared.{ℕ, ◌+◌, ◌*◌, ◌&&◌, if◌then◌else◌, ℤ, sub_ℕ, Option, some, ◌>>=◌}
use nvsim.Types.{MemCellType}
use nvsim.Double.{Double, ◌⊕◌, ◌⊖◌, ◌⊗◌, ◌⊘◌, whole, max_d}
use nvsim.FunctionUnit.{FunctionUnit, with_power}
use nvsim.Globals.{Globals}
use nvsim.Formula.{inverter, calculate_gate_leakage}
use nvsim.Cell.{MemCell}
use nvsim.Cell.Energy.{calculate_write_energy, calculate_read_power}
use nvsim.SubArray.State.{Subarray}
use nvsim.SubArray.Bitline.{quotient, is_crossbar, erases_before, verifies}

module _ {D : Type 0} ⦃d : Double D⦄ (g : Globals D) where
  -- The capacitance of a bitline with a cell and its multiplexer.
  abbrev cell_load : Subarray D → D
  cell_load s = s.cap_cell_access ⊕ s.cap_bitline ⊕ s.bitline_mux.cap_for_previous_power_calculation

  -- For the columns that are selected, in floating point.
  abbrev per_row : D → Subarray D → D
  per_row x s =
      x
      ⊗ whole s.request.num_column
      ⊘ whole s.request.mux_sense_amp
      ⊘ whole s.request.mux_output_lev1
      ⊘ whole s.request.mux_output_lev2

  abbrev precharge_energy : Subarray D → D
  precharge_energy s = cell_load s ⊗ s.voltage_precharge ⊗ s.voltage_precharge

  unfoldable pub sram_power : Subarray D → Option (FunctionUnit D)
  sram_power s = do
    cells ←
        calculate_gate_leakage
          (inverter (g.cell.width_sram_cell_nmos ⊗ g.tech.feature_size)
            (g.cell.width_sram_cell_pmos ⊗ g.tech.feature_size) (whole 0))
          g.input.temperature g.tech
    access ←
        calculate_gate_leakage
          (inverter (g.cell.width_access_cmos ⊗ g.tech.feature_size) (whole 0) (whole 0))
          g.input.temperature g.tech
    some (
        with_power (precharge_energy s ⊗ whole s.request.num_column)
          (per_row (precharge_energy s) s)
          ((cells ⊗ g.tech.vdd ⊗ whole 2 ⊕ access ⊗ g.tech.vdd)
            ⊗ whole (s.request.num_row * s.request.num_column))
          s.figures)

  unfoldable pub dram_power : Subarray D → FunctionUnit D
  dram_power s =
      let columns = whole s.request.num_column in
      let read = cell_load s ⊗ s.sense_voltage ⊗ g.tech.vdd ⊗ columns in
      let written =
        (s.cap_bitline ⊕ s.bitline_mux.cap_for_previous_power_calculation)
        ⊗ g.cell.reset_voltage
        ⊗ g.cell.reset_voltage
        ⊗ columns in
      with_power read written (read ⊘ d.decimal 64 3 ⊗ whole s.request.num_row) s.figures

  -- The energy to read a row of resistive cells.
  unfoldable pub resistive_read : Subarray D → D
  resistive_read s =
      let columns = whole s.request.num_column in
      let mux = s.bitline_mux.res_nmos_pass_transistor in
      let all = mux ⊕ s.res_bitline ⊕ s.res_mem_cell_on in
      let low = g.cell.read_voltage ⊗ mux ⊘ all in
      let high = g.cell.read_voltage ⊗ (mux ⊕ s.res_bitline) ⊘ all in
      if g.cell.read_mode
      then cell_load s
        ⊗ (s.voltage_precharge ⊗ s.voltage_precharge
            ⊖ s.voltage_mem_cell_on ⊗ s.voltage_mem_cell_on)
        ⊗ columns
      else (s.cap_cell_access ⊗ high ⊗ high
          ⊕ s.bitline_mux.cap_for_previous_power_calculation ⊗ low ⊗ low
          ⊕ s.cap_bitline ⊗ (high ⊗ high ⊕ low ⊗ low ⊕ high ⊗ low) ⊘ whole 3)
        ⊗ columns

  abbrev read_power : D
  read_power =
      if d.eq g.cell.read_power (whole 0)
      then calculate_read_power g.cell g.tech.vdd g.cell
      else g.cell.read_power

  -- The energies of a pulse of either kind for the selected columns, and of a write.
  abbrev with_cell_energies : D → D → D → FunctionUnit D → FunctionUnit D
  with_cell_energies reset set written u = record u {
    cell_reset_energy = reset;
    cell_set_energy = set;
    write_dynamic_energy = written;
  }

  abbrev write_energy : MemCellType → D → D → FunctionUnit D → FunctionUnit D
  write_energy MemCellType.pcram reset set u =
      let shaper = d.decimal 2 1 in
      if verifies g.input.write_scheme
      then u
      else with_cell_energies (reset ⊘ shaper) (set ⊘ shaper)
          (max_d (reset ⊘ shaper) (set ⊘ shaper)) u
  write_energy MemCellType.fbram reset set u =
      let shaper = d.decimal 10 1 in
      with_cell_energies (reset ⊘ shaper) (set ⊘ shaper) (max_d (reset ⊘ shaper) (set ⊘ shaper)) u
  write_energy _ reset set u =
      let shaper = d.decimal 10 1 in
      let both = is_crossbar g.cell.access_type && erases_before g.input.write_scheme in
      with_cell_energies (reset ⊘ shaper) (set ⊘ shaper)
        ((if both then reset ⊕ set else max_d reset set) ⊘ shaper) u

  -- The energy of a bit with that of its bitline, at the voltage of the pulse.
  abbrev bit_energy : D → D → Subarray D → D
  bit_energy energy voltage s = energy ⊕ cell_load s ⊗ voltage ⊗ voltage

  unfoldable pub resistive_power : MemCell D → Subarray D → Option (FunctionUnit D)
  resistive_power c s = do
    n ← quotient s.request.num_column s.request.mux_sense_amp
    n ← quotient n s.request.mux_output_lev1
    n ← quotient n s.request.mux_output_lev2
    let reset = bit_energy c.reset_energy (if c.reset_mode then c.reset_voltage else g.tech.vdd) s
    let set = bit_energy c.set_energy (if c.set_mode then c.set_voltage else g.tech.vdd) s
    some (
        write_energy g.cell.mem_cell_type (per_row reset s) (per_row set s) (record s.figures {
          read_dynamic_energy = resistive_read s;
          cell_read_energy = whole 2 ⊗ read_power ⊗ s.sense_amp.figures.read_latency ⊗ whole n;
          leakage = whole 0;
        }))

  -- The energy of the row decoder, with the wordline charged to another voltage than the supply.
  abbrev at_voltage : D → D → D
  at_voltage energy voltage = energy ⊘ g.tech.vdd ⊘ g.tech.vdd ⊗ voltage ⊗ voltage

  abbrev nand_set_energy : Subarray D → D
  nand_set_energy s =
      let columns = whole s.request.num_column in
      cell_load s ⊗ g.cell.flash_program_voltage ⊗ g.cell.flash_program_voltage ⊗ columns
      ⊕ d.decimal 50 1
        ⊗ whole 10
        ⊗ g.cell.area
        ⊗ g.tech.feature_size
        ⊗ g.tech.feature_size
        ⊗ g.cell.flash_program_time
        ⊗ columns

  abbrev nand_reset_energy : Subarray D → D
  nand_reset_energy s =
      let voltage = g.cell.flash_erase_voltage ⊖ g.tech.build_in_potential in
      let well =
        g.tech.cap_junction
        ⊗ g.cell.area
        ⊗ g.tech.feature_size
        ⊗ g.tech.feature_size
        ⊗ whole g.input.flash_block_size in
      cell_load s ⊗ voltage ⊗ voltage ⊗ whole (s.request.num_column + 1)
      ⊕ well ⊗ g.cell.flash_erase_voltage ⊗ g.cell.flash_erase_voltage

  -- The wordlines of a NAND: read, set and erased at voltages of their own.
  abbrev nand_rows : ℕ → ℤ → ℤ → FunctionUnit D → FunctionUnit D
  nand_rows pages others blocks u =
      let energy = u.read_dynamic_energy in
      let passing = at_voltage energy g.cell.flash_pass_voltage ⊗ d.of_int others in
      let set = energy ⊕ passing ⊕ at_voltage energy g.cell.flash_program_voltage in
      let reset =
        at_voltage energy (g.cell.flash_erase_voltage ⊗ d.decimal 8 1) ⊗ d.of_int blocks in
      record u {
        read_dynamic_energy = passing;
        set_dynamic_energy = set;
        reset_dynamic_energy = reset;
        write_dynamic_energy = (set ⊕ reset ⊘ whole pages) ⊘ whole 2;
      }

  unfoldable pub nand_power : Subarray D → Option (Subarray D)
  nand_power s = do
    pages ← quotient g.input.flash_block_size g.input.page_size
    strings ← quotient s.request.num_row pages
    let wordlines = strings * (pages + 2)
    let set = nand_set_energy s
    let reset = nand_reset_energy s
    some (record s {
      row_decoder = record s.row_decoder {
        figures = nand_rows pages (sub_ℕ wordlines 1) (sub_ℕ wordlines pages) s.row_decoder.figures;
      };
      figures = record s.figures {
        read_dynamic_energy = precharge_energy s ⊗ whole s.request.num_column;
        set_dynamic_energy = set;
        reset_dynamic_energy = reset;
        write_dynamic_energy = (set ⊕ reset ⊘ whole pages) ⊘ whole 2;
        leakage = whole 0;
      };
    })

  abbrev with_resistive : Subarray D → Option (MemCell D × Subarray D)
  with_resistive s = do
    let cell = calculate_write_energy g.tech.vdd g.cell
    u ← resistive_power cell s
    some (cell, record s { figures = u })

  -- The energies of the cells and their bitlines; of MLC NAND nothing is computed.
  abbrev pub power_by : MemCellType → Subarray D → Option (MemCell D × Subarray D)
  power_by MemCellType.sram s = do u ← sram_power s; some (g.cell, record s { figures = u })
  power_by MemCellType.dram s = some (g.cell, record s { figures = dram_power s })
  power_by MemCellType.edram s = some (g.cell, record s { figures = dram_power s })
  power_by MemCellType.mram s = with_resistive s
  power_by MemCellType.pcram s = with_resistive s
  power_by MemCellType.memristor s = with_resistive s
  power_by MemCellType.fbram s = with_resistive s
  power_by MemCellType.slcnand s = do t ← nand_power s; some (g.cell, t)
  power_by MemCellType.mlcnand s = some (g.cell, s)
