-- ===== src/Cell/Energy.antt =====
-- MemCell.cpp: CalculateWriteEnergy, CalculateReadPower and GetMemristance. The supply voltage `tech->vdd`
-- is an argument, and so is the global `cell` that CalculateReadPower reads.
use nvsim.Shared.{Bool, if◌then◌else◌, negsuc}
use nvsim.Types.{MemCellType, CellAccessType}
use nvsim.Double.{Double, ◌⊕◌, ◌⊖◌, ◌⊗◌, ◌⊘◌, whole}
use nvsim.Cell.{MemCell}

module _ {D : Type 0} ⦃d : Double D⦄ where
  abbrev pub is_zero_d : D → Bool
  is_zero_d x = d.eq x (whole 0)

  -- A voltage over a resistance, less the drop over the access device, for a pulse.
  abbrev by_resistance : D → D → D → D → D
  by_resistance voltage drop resistance pulse =
      d.fabs voltage ⊗ (d.fabs voltage ⊖ drop) ⊘ resistance ⊗ pulse

  abbrev by_current : D → D → D → D
  by_current voltage current pulse = d.fabs voltage ⊗ d.fabs current ⊗ pulse

  -- A memristor without access device has the resistance of its voltage.
  abbrev low_resistance : CellAccessType → D → D → D
  low_resistance CellAccessType.none_access at_voltage on = at_voltage
  low_resistance CellAccessType.cmos_access at_voltage on = on
  low_resistance CellAccessType.bjt_access at_voltage on = on
  low_resistance CellAccessType.diode_access at_voltage on = on

  abbrev voltage_energy : MemCellType → CellAccessType → D → D → D → D → D → D → D
  voltage_energy MemCellType.memristor access voltage current drop at_voltage on pulse =
      by_resistance voltage drop (low_resistance access at_voltage on) pulse
  voltage_energy MemCellType.fbram access voltage current drop at_voltage on pulse =
      by_current voltage current pulse
  voltage_energy _ access voltage current drop at_voltage on pulse =
      by_resistance voltage drop on pulse

  abbrev pub reset_energy_of : D → MemCell D → D
  reset_energy_of vdd c =
      if c.reset_mode
      then voltage_energy c.mem_cell_type c.access_type c.reset_voltage c.reset_current
          c.voltage_drop_access_device c.resistance_on_at_reset_voltage c.resistance_on
          c.reset_pulse
      else if is_zero_d c.reset_voltage
      then vdd ⊗ d.fabs c.reset_current ⊗ c.reset_pulse
      else by_current c.reset_voltage c.reset_current c.reset_pulse

  -- The test of the current mode is on the reset voltage here too.
  abbrev pub set_energy_of : D → MemCell D → D
  set_energy_of vdd c =
      if c.set_mode
      then voltage_energy c.mem_cell_type c.access_type c.set_voltage c.set_current
          c.voltage_drop_access_device c.resistance_on_at_set_voltage c.resistance_on c.set_pulse
      else if is_zero_d c.reset_voltage
      then vdd ⊗ d.fabs c.set_current ⊗ c.set_pulse
      else by_current c.set_voltage c.set_current c.set_pulse

  -- `if (energy == 0) energy = computed;`
  unfoldable pub filled : D → D → D
  filled energy computed = if is_zero_d energy then computed else energy

  unfoldable pub calculate_write_energy : D → MemCell D → MemCell D
  unfolding filled
  calculate_write_energy vdd c =
      let reset = record c { reset_energy = filled c.reset_energy (reset_energy_of vdd c) } in
      record reset { set_energy = filled reset.set_energy (set_energy_of vdd reset) }

  unfoldable pub calculate_read_power : MemCell D → D → MemCell D → D
  calculate_read_power cell vdd c =
      if is_zero_d c.read_power
      then if cell.read_mode
        then if is_zero_d c.read_voltage
          then vdd ⊗ c.read_current
          else if is_zero_d c.read_current
          then vdd
            ⊗ ((c.read_voltage ⊖ c.voltage_drop_access_device)
                ⊘ (c.resistance_on ⊕ d.sqrt (c.resistance_on ⊗ c.resistance_off)))
          else d.of_int (negsuc 0)
        else vdd ⊗ ((c.read_voltage ⊖ c.voltage_drop_access_device) ⊘ c.resistance_on)
      else d.of_int (negsuc 0)

  abbrev interpolated : D → D → D → D → D → D
  interpolated x1 x2 x3 y1 y2 = (y2 ⊖ y1) ⊘ (x2 ⊖ x1) ⊗ x3 ⊕ (x2 ⊗ y1 ⊖ x1 ⊗ y2) ⊘ (x2 ⊖ x1)

  abbrev memristance : MemCell D → D → D
  memristance c relative =
      let x1 =
        if is_zero_d c.read_voltage
        then c.read_current ⊗ c.resistance_on_at_read_voltage
        else c.read_voltage in
      let x2 = c.read_voltage ⊘ whole 2 in
      let x3 = relative ⊗ c.read_voltage in
      let y1 = d.log2 (x1 ⊘ c.resistance_on_at_read_voltage) in
      let y2 = d.log2 (x2 ⊘ c.resistance_on_at_half_read_voltage) in
      x3 ⊘ d.pow (whole 2) (interpolated x1 x2 x3 y1 y2)

  abbrev of_kind : MemCellType → MemCell D → D → D
  of_kind MemCellType.memristor c relative = memristance c relative
  of_kind _ c relative = d.of_int (negsuc 0)

  unfoldable pub get_memristance : MemCell D → D → D
  get_memristance c relative = of_kind c.mem_cell_type c relative
