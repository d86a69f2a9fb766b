-- ===== src/SubArray/Access.antt =====
-- SubArray.cpp: what SubArray::Initialize derives of the array's lines and its cells.
use nvsim.Shared.{ℕ, ◌*◌, ◌/◌, ◌-◌, ◌+◌, zero, suc, true, false, not, if◌then◌else◌}
use nvsim.Types.{MemCellType, CellAccessType}
use nvsim.Double.{Double, ◌⊕◌, ◌⊖◌, ◌⊗◌, ◌⊘◌, ◌≼◌, whole, max_d, min_d}
use nvsim.Globals.{Globals}
use nvsim.Formula.{
  nmos, calculate_gate_cap, calculate_drain_cap, calculate_fbram_gate_cap,
  calculate_fbram_drain_cap, calculate_on_resistance,
}
use nvsim.SubArray.State.{SubArrayRequest, Subarray, Check, goes_on, drops, ◌>>=◌, defined, divide}
use nvsim.SubArray.Legality.{is_nand, page_count}

module _ {D : Type 0} ⦃d : Double D⦄ (g : Globals D) (r : SubArrayRequest) where
  abbrev stitches : ℕ → D → D
  stitches zero length = length
  stitches (suc n) length =
      length ⊕ whole ((r.num_column - 1) / suc n + 1) ⊗ d.decimal 75 1 ⊗ g.tech.feature_size

  abbrev wordline_length : D
  wordline_length =
      stitches g.cell.stitching
        (whole r.num_column ⊗ g.cell.width_in_feature_size ⊗ g.tech.feature_size)

  -- For NAND with its select transistors.
  abbrev bitline_length : Check D
  bitline_length =
      let cells = whole r.num_row ⊗ g.cell.height_in_feature_size ⊗ g.tech.feature_size in
      elim (is_nand g.cell.mem_cell_type) [
        | false ↦ goes_on cells
        | true ↦ do
          pages ← page_count g r
          strings ← divide r.num_row pages
          goes_on (cells ⊕ whole (strings * 5) ⊗ g.tech.feature_size)
      ]

  -- The lines, without the cells at them.
  unfoldable pub with_lines : Subarray D → Check (Subarray D)
  with_lines s = do
    amps ← divide r.num_column r.mux_sense_amp
    bitline ← bitline_length
    goes_on (record s {
      num_sense_amp = amps;
      len_wordline = wordline_length;
      len_bitline = bitline;
      cap_wordline = wordline_length ⊗ g.local_wire.cap_wire_per_unit;
      res_wordline = wordline_length ⊗ g.local_wire.res_wire_per_unit;
      cap_bitline = bitline ⊗ g.local_wire.cap_wire_per_unit;
      res_bitline = bitline ⊗ g.local_wire.res_wire_per_unit;
    })

  -- The access transistor.
  abbrev access_width : D
  access_width = g.cell.width_access_cmos ⊗ g.tech.feature_size

  abbrev cell_width : D
  cell_width = g.cell.width_in_feature_size ⊗ g.tech.feature_size

  -- Of a width, the drain on the bitline is shared by two cells; `gates` is the load of a wordline.
  abbrev with_transistor : D → D → D → D → Subarray D → Subarray D
  with_transistor res drain gates precharge s = record s {
    res_cell_access = res;
    cap_cell_access = drain;
    cap_wordline = s.cap_wordline ⊕ gates;
    cap_bitline = s.cap_bitline ⊕ drain ⊗ whole r.num_row ⊘ whole 2;
    voltage_precharge = precharge;
  }

  abbrev access_transistor : Check (D × D)
  access_transistor = do
    res ← defined (calculate_on_resistance access_width nmos g.input.temperature g.tech)
    drain ← defined (calculate_drain_cap access_width nmos cell_width g.tech)
    goes_on (res, drain)

  -- The precharge voltage between the voltages of both states, if the sense amplifiers can tell it
  -- from the lower one.
  abbrev with_precharge : D → D → Subarray D → Check (Subarray D)
  with_precharge off on s =
      let precharge = min_d g.tech.vdd ((off ⊕ on) ⊘ whole 2) in
      if precharge ⊖ on ≼ s.sense_voltage
      then drops
      else goes_on (record s {
        voltage_mem_cell_off = off;
        voltage_mem_cell_on = on;
        voltage_precharge = precharge;
      })

  -- A voltage divider with a resistance in series.
  abbrev with_divider : Subarray D → Check (Subarray D)
  with_divider s =
      let series = d.sqrt (s.res_mem_cell_on ⊗ s.res_mem_cell_off) in
      with_precharge (g.cell.read_voltage ⊗ s.res_mem_cell_off ⊘ (s.res_mem_cell_off ⊕ series))
        (g.cell.read_voltage ⊗ s.res_mem_cell_on ⊘ (s.res_mem_cell_on ⊕ series))
        (record s {
          res_in_serial_for_sense_amp = series;
          res_equivalent_on = s.res_mem_cell_on ⊗ series ⊘ (s.res_mem_cell_on ⊕ series);
          res_equivalent_off = s.res_mem_cell_off ⊗ series ⊘ (s.res_mem_cell_off ⊕ series);
        })

  -- Voltage sensing of a resistance, by a current or a divider.
  unfoldable pub with_sensing : Subarray D → Check (Subarray D)
  with_sensing s =
      if not g.cell.read_mode
      then goes_on s
      else (if d.eq g.cell.read_voltage (whole 0)
          then with_precharge (g.cell.read_current ⊗ s.res_mem_cell_off)
              (g.cell.read_current ⊗ s.res_mem_cell_on) s
          else with_divider s)

  -- Without a transistor.
  abbrev with_junction : Subarray D → Subarray D
  with_junction s =
      let cap = max_d g.cell.capacitance_on g.cell.capacitance_off in
      let cap' = max_d g.cell.capacitance_off g.cell.capacitance_on in
      record s {
        res_cell_access = whole 0;
        cap_cell_access = cap;
        cap_wordline = s.cap_wordline ⊕ cap' ⊗ whole r.num_column;
        cap_bitline = s.cap_bitline ⊕ cap' ⊗ whole r.num_row;
      }

  abbrev with_device : CellAccessType → Subarray D → Check (Subarray D)
  with_device CellAccessType.cmos_access s = do
    a ← access_transistor
    goes_on (
        with_transistor a.0 a.1 (calculate_gate_cap access_width g.tech ⊗ whole r.num_column)
          s.voltage_precharge s)
  with_device CellAccessType.bjt_access s = goes_on s
  with_device CellAccessType.diode_access s = goes_on (with_junction s)
  with_device CellAccessType.none_access s = goes_on (with_junction s)

  abbrev resistive : Subarray D → Check (Subarray D)
  resistive s = do
    s ← with_device g.cell.access_type s
    with_sensing (record s {
      res_mem_cell_off = s.res_cell_access ⊕ g.cell.resistance_off;
      res_mem_cell_on = s.res_cell_access ⊕ g.cell.resistance_on;
    })

  abbrev with_select : ℕ → ℕ → Subarray D → Check (Subarray D)
  with_select pages strings s = do
    res ← defined (calculate_on_resistance g.tech.feature_size nmos g.input.temperature g.tech)
    drain ← defined (calculate_drain_cap g.tech.feature_size nmos cell_width g.tech)
    goes_on (record s {
      res_cell_access = res ⊗ whole (pages + 2);
      cap_cell_access = drain;
      cap_wordline =
          s.cap_wordline
          ⊕ calculate_gate_cap g.tech.feature_size g.tech
            ⊗ whole r.num_column
            ⊗ g.cell.gate_coupling_ratio
            ⊘ (g.cell.gate_coupling_ratio ⊕ whole 1);
      cap_bitline = s.cap_bitline ⊕ drain ⊗ whole strings ⊘ whole 2;
      voltage_precharge = g.tech.vdd ⊗ d.decimal 6 1;
    })

  abbrev access_by : MemCellType → Subarray D → Check (Subarray D)
  access_by MemCellType.sram s = do
    a ← access_transistor
    goes_on (
        with_transistor a.0 a.1
          (whole 2 ⊗ calculate_gate_cap access_width g.tech ⊗ whole r.num_column)
          (g.tech.vdd ⊘ whole 2) s)
  access_by MemCellType.dram s = do
    a ← access_transistor
    goes_on (
        with_transistor a.0 a.1 (calculate_gate_cap access_width g.tech ⊗ whole r.num_column)
          (g.tech.vdd ⊘ whole 2) s)
  access_by MemCellType.edram s = do
    a ← access_transistor
    goes_on (
        with_transistor a.0 a.1 (calculate_gate_cap access_width g.tech ⊗ whole r.num_column)
          (g.tech.vdd ⊘ whole 2) s)
  access_by MemCellType.fbram s =
      let width = g.cell.width_soi_device ⊗ g.tech.feature_size in
      with_sensing
        (record (with_transistor (whole 0) (calculate_fbram_drain_cap width g.tech)
          (calculate_fbram_gate_cap width g.cell.gate_ox_thickness_factor g.tech
            ⊗ whole r.num_column)
          s.voltage_precharge s) {
            res_mem_cell_off = g.cell.resistance_off;
            res_mem_cell_on = g.cell.resistance_on;
          })
  access_by MemCellType.mram s = resistive s
  access_by MemCellType.pcram s = resistive s
  access_by MemCellType.memristor s = resistive s
  access_by MemCellType.slcnand s = do
    pages ← page_count g r
    strings ← divide r.num_row pages
    with_select pages strings s
  access_by MemCellType.mlcnand s = goes_on s

  -- The access devices and the cells at the lines.
  unfoldable pub with_access : Subarray D → Check (Subarray D)
  with_access s = access_by g.cell.mem_cell_type s
