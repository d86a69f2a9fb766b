-- ===== src/SubArray/Latency.antt =====
-- SubArray.cpp: SubArray::CalculateLatency, for resistive cells and NAND, and as a whole.
use nvsim.Shared.{◌+◌, true, false, if◌then◌else◌, Option, some, ◌>>=◌}
use nvsim.Types.{MemCellType}
use nvsim.Double.{Double, ◌⊕◌, ◌⊖◌, ◌⊗◌, ◌⊘◌, whole, max_d}
use nvsim.FunctionUnit.{FunctionUnit, huge, with_latency}
use nvsim.Globals.{Globals}
use nvsim.Formula.{nmos, calculate_on_resistance, calculate_transconductance, horowitz}
use nvsim.SubArray.State.{Subarray}
use nvsim.SubArray.Bitline.{
  quotient, is_crossbar, erases_before, verifies, with_decoders, with_outputs, read_sum,
  bitline_tau, sram_latency, dram_latency,
}

module _ {D : Type 0} ⦃d : Double D⦄ (g : Globals D) where
  -- How long a state takes to move the bitline by the sensed voltage, from its resistance and the
  -- distance between its voltage and the precharge voltage.
  abbrev sense_delay : D → D → Subarray D → D
  sense_delay res distance s = bitline_tau g res s ⊗ d.log (distance ⊘ (distance ⊖ s.sense_voltage))

  abbrev with_delays : D → D → Subarray D → Subarray D
  with_delays on off s =
      let delay_on = sense_delay on (s.voltage_precharge ⊖ s.voltage_mem_cell_on) s in
      let delay_off = sense_delay off (s.voltage_mem_cell_off ⊖ s.voltage_precharge) s in
      record s {
        bitline_delay_on = delay_on;
        bitline_delay_off = delay_off;
        bitline_delay = max_d delay_on delay_off;
      }

  -- The bitline of a resistive cell, and the ramp that it leaves.
  unfoldable pub resistive_bitline : Subarray D → Subarray D × D
  resistive_bitline s =
      if g.cell.read_mode
      then (if d.eq g.cell.read_voltage (whole 0)
          then (with_delays s.res_mem_cell_on s.res_mem_cell_off s, whole 0)
          else (with_delays s.res_equivalent_on s.res_equivalent_off s, whole 0))
      else (let tau =
            s.res_bitline
            ⊗ s.cap_bitline
            ⊘ whole 2
            ⊗ (s.res_mem_cell_off ⊕ s.res_bitline ⊘ whole 3)
            ⊘ (s.res_mem_cell_off ⊕ s.res_bitline) in
          let delay = horowitz tau (whole 0) s.row_decoder.ramp_output in
          (record s { bitline_delay = delay.0 }, delay.1))

  -- The cells are reached: the columns through their decoders and the charged bitlines.
  abbrev pub reached : D → Subarray D → D
  reached rows s = max_d rows (s.column_decoder_latency ⊕ s.charge_latency)

  -- A write by one pulse of either kind.
  abbrev pub with_pulse : Subarray D → FunctionUnit D → FunctionUnit D
  with_pulse s u =
      let start = reached s.row_decoder.figures.write_latency s in
      record u {
        reset_latency = start ⊕ g.cell.reset_pulse;
        set_latency = start ⊕ g.cell.set_pulse;
        write_latency = start ⊕ max_d g.cell.reset_pulse g.cell.set_pulse;
      }

  -- A write by both pulses, one after the other, through a cell without a transistor.
  abbrev pub with_both_pulses : Subarray D → FunctionUnit D → FunctionUnit D
  with_both_pulses s u =
      let rows = s.row_decoder.figures.write_latency in
      let start =
        if erases_before g.input.write_scheme
        then max_d rows s.charge_latency
        else reached rows s in
      record u {
        write_latency = start ⊕ s.charge_latency ⊕ (g.cell.reset_pulse ⊕ g.cell.set_pulse);
      }

  abbrev pub with_write : MemCellType → Subarray D → FunctionUnit D → FunctionUnit D
  with_write MemCellType.pcram s u = if verifies g.input.write_scheme then u else with_pulse s u
  with_write MemCellType.fbram s u = with_pulse s u
  with_write _ s u = if is_crossbar g.cell.access_type then with_both_pulses s u else with_pulse s u

  unfoldable pub resistive_latency : Subarray D → Subarray D
  resistive_latency s =
      let bitline = resistive_bitline s in
      let t = with_outputs g bitline.1 bitline.0 in
      record t {
        figures =
            with_write g.cell.mem_cell_type t (record t.figures { read_latency = read_sum g t });
      }

  unfoldable pub nand_latency : Subarray D → Option (Subarray D)
  nand_latency s = do
    pages ← quotient g.input.flash_block_size g.input.page_size
    res ← calculate_on_resistance g.tech.feature_size nmos g.input.temperature g.tech
    let pull_down = res ⊗ whole (pages + 2)
    let tau =
        bitline_tau g pull_down s
        ⊗ d.log (s.voltage_precharge ⊘ (s.voltage_precharge ⊖ s.sense_voltage))
    let gm = calculate_transconductance g.tech.feature_size nmos g.tech
    let delay = horowitz tau (whole 1 ⊘ (pull_down ⊗ gm)) s.row_decoder.ramp_output
    let t = with_outputs g delay.1 (record s { bitline_delay = max_d delay.0 (tau ⊗ whole 20) })
    let start = reached t.row_decoder.figures.read_latency t
    some (record t {
      figures = record t.figures {
        read_latency = read_sum g t;
        reset_latency = start ⊕ g.cell.flash_erase_time;
        set_latency = start ⊕ g.cell.flash_program_time;
        write_latency = start ⊕ g.cell.flash_program_time;
      };
    })

  -- Of MLC NAND nothing more is computed.
  abbrev pub latency_by : MemCellType → Subarray D → Option (Subarray D)
  latency_by MemCellType.sram s = sram_latency g s
  latency_by MemCellType.dram s = some (dram_latency g s)
  latency_by MemCellType.edram s = some (dram_latency g s)
  latency_by MemCellType.mram s = some (resistive_latency s)
  latency_by MemCellType.pcram s = some (resistive_latency s)
  latency_by MemCellType.memristor s = some (resistive_latency s)
  latency_by MemCellType.fbram s = some (resistive_latency s)
  latency_by MemCellType.slcnand s = nand_latency s
  latency_by MemCellType.mlcnand s = some s

  unfoldable pub calculate_latency : D → Subarray D → Option (Subarray D)
  calculate_latency ramp s = elim s.initialized [
    | false ↦ some s
    | true ↦ elim s.is_invalid [
      | true ↦ some (record s { figures = with_latency huge huge s.figures })
      | false ↦ do t ← with_decoders g ramp s; latency_by g.cell.mem_cell_type t
    ]
  ]
