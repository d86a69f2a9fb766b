-- ===== src/SubArray/Legality.antt =====
-- SubArray.cpp: the tests of SubArray::Initialize on the configuration.
use nvsim.Shared.{ℕ, ltb, Bool, true, false, not, ◌&&◌, ◌||◌, if◌then◌else◌, sub_ℕ}
use nvsim.Types.{MemCellType, CellAccessType, DesignTarget, CacheAccessMode}
use nvsim.Double.{Double, ◌⊕◌, ◌⊖◌, ◌⊗◌, ◌⊘◌, ◌≺◌, whole, max_d}
use nvsim.Globals.{Globals, on_current, min_nmos, max_nmos}
use nvsim.Formula.{temp_index}
use nvsim.SubArray.State.{
  SubArrayRequest, Check, goes_on, rejects, drops, undefined, ◌>>=◌, defined, divide,
}

abbrev pub is_dram : MemCellType → Bool
is_dram MemCellType.dram = true
is_dram MemCellType.edram = true
is_dram _ = false

abbrev pub is_nand : MemCellType → Bool
is_nand MemCellType.slcnand = true
is_nand _ = false

abbrev pub is_fbram : MemCellType → Bool
is_fbram MemCellType.fbram = true
is_fbram _ = false

-- MRAM, PCRAM or memristor.
abbrev pub is_resistive : MemCellType → Bool
is_resistive MemCellType.mram = true
is_resistive MemCellType.pcram = true
is_resistive MemCellType.memristor = true
is_resistive _ = false

abbrev pub is_memristor : MemCellType → Bool
is_memristor MemCellType.memristor = true
is_memristor _ = false

abbrev pub is_sequential : CacheAccessMode → Bool
is_sequential CacheAccessMode.sequential_access_mode = true
is_sequential _ = false

abbrev pub is_cache : DesignTarget → Bool
is_cache DesignTarget.cache = true
is_cache _ = false

-- `if (b) { invalid = true; initialized = true; return; }`, and the same without `initialized`.
abbrev pub reject_if : Bool → Check Unit
reject_if true = rejects
reject_if false = goes_on tt

abbrev pub drop_if : Bool → Check Unit
drop_if true = drops
drop_if false = goes_on tt

module _ {D : Type 0} ⦃d : Double D⦄ (g : Globals D) (r : SubArrayRequest) where
  -- Each column is to hold a part of all the ways.
  abbrev pub lacks_ways : Bool
  lacks_ways =
      is_cache g.input.design_target
      && not (is_sequential g.input.cache_access_mode)
      && ltb r.num_column g.input.associativity

  -- There is no way to put the sense amplifiers.
  abbrev pub lacks_room : Bool
  lacks_room = r.internal_sense_amp && ltb r.mux_sense_amp 2

  abbrev pub page_count : Check ℕ
  page_count = divide g.input.flash_block_size g.input.page_size

  -- SLC NAND needs rows for the pages of a block.
  abbrev pub check_nand : Bool → Check Unit
  check_nand false = goes_on tt
  check_nand true = do pages ← page_count; u ← reject_if (ltb r.num_row pages); reject_if lacks_room

  -- The tests up to the ones on currents.
  unfoldable pub check_shape : Check Unit
  check_shape = do
    u ← reject_if lacks_ways
    u ← reject_if (is_dram g.cell.mem_cell_type && ltb 1 r.mux_sense_amp)
    u ← check_nand (is_nand g.cell.mem_cell_type)
    reject_if ((is_memristor g.cell.mem_cell_type || is_fbram g.cell.mem_cell_type) && lacks_room)

  -- `numRow - 1` and `MAX(cell->resetCurrent, cell->setCurrent)`.
  abbrev other_rows : D
  other_rows = d.of_int (sub_ℕ r.num_row 1)

  abbrev write_current : D
  write_current = max_d g.cell.reset_current g.cell.set_current

  -- The greatest current in a bitline whose access device leaks.
  abbrev leaking : D → D
  leaking current = current ⊕ g.cell.leakage_current_access_device ⊗ other_rows

  -- The ratio of the on and the off current of a transistor at the temperature.
  abbrev on_off_ratio : Check D
  on_off_ratio = do
    i ← defined (temp_index g.input.temperature)
    goes_on (g.tech.current_on_nmos i ⊘ g.tech.current_off_nmos i)

  abbrev reset_current : D
  reset_current =
      if d.eq g.cell.reset_current (whole 0)
      then (d.fabs g.cell.reset_voltage ⊖ g.cell.voltage_drop_access_device)
        ⊘ g.cell.resistance_on_at_reset_voltage
      else g.cell.reset_current

  -- Without a CMOS access the columns, or rows, that are half selected draw a current too.
  abbrev half_selected : CellAccessType → D → D → D → D
  half_selected CellAccessType.none_access selected others current =
      selected
      ⊕ current
        ⊗ g.cell.resistance_on_at_reset_voltage
        ⊘ whole 2
        ⊘ g.cell.resistance_on_at_half_reset_voltage
        ⊗ others
  half_selected _ selected others current = selected ⊕ g.cell.leakage_current_access_device ⊗ others

  -- The wordline and the bitline current.
  abbrev currents_without_cmos : Check (D × D)
  currents_without_cmos = do
    n ← divide r.num_column r.mux_sense_amp
    n ← divide n r.mux_output_lev1
    n ← divide n r.mux_output_lev2
    let wordline =
        half_selected g.cell.access_type (reset_current ⊗ whole n) (d.of_int (sub_ℕ r.num_column n))
          reset_current
    on ← defined (on_current g)
    u ← drop_if (max_nmos g ≺ wordline ⊘ on)
    goes_on (wordline, half_selected g.cell.access_type reset_current other_rows reset_current)

  abbrev currents_of : CellAccessType → Check (D × D)
  currents_of CellAccessType.cmos_access = do
    ratio ← on_off_ratio
    u ← reject_if (ratio ≺ whole r.num_row)
    goes_on (whole 0, leaking write_current)
  currents_of _ = currents_without_cmos

  abbrev currents_for : MemCellType → Check (D × D)
  currents_for MemCellType.fbram = do
    u ← reject_if (g.cell.resistance_off ⊘ g.cell.resistance_on ≺ whole r.num_row)
    goes_on (whole 0, leaking write_current)
  currents_for MemCellType.mram = currents_of g.cell.access_type
  currents_for MemCellType.pcram = currents_of g.cell.access_type
  currents_for MemCellType.memristor = currents_of g.cell.access_type
  currents_for _ = goes_on (whole 0, whole 0)

  -- `maxWordlineCurrent` and `maxBitlineCurrent`.
  unfoldable pub max_currents : Check (D × D)
  max_currents = currents_for g.cell.mem_cell_type

  -- `minBitlineMuxWidth`.
  unfoldable pub min_mux_width : D → Check D
  min_mux_width bitline_current = do
    on ← defined (on_current g)
    let width = max_d (min_nmos g) (bitline_current ⊘ on)
    u ← drop_if (max_nmos g ≺ width)
    goes_on width

  abbrev sense_by : MemCellType → Bool
  sense_by MemCellType.mram = g.cell.read_mode
  sense_by MemCellType.pcram = g.cell.read_mode
  sense_by MemCellType.memristor = g.cell.read_mode
  sense_by MemCellType.fbram = g.cell.read_mode
  sense_by _ = true

  -- `voltageSense`; external sense amplifiers leave it as it was, and make the source exit for DRAM.
  unfoldable pub voltage_sensing : Bool → Check Bool
  voltage_sensing before =
      if r.internal_sense_amp
      then goes_on (sense_by g.cell.mem_cell_type)
      else (if is_dram g.cell.mem_cell_type then undefined else goes_on before)

  -- `senseVoltage`, from the bitline capacitance that the object holds before it is computed.
  unfoldable pub sensed_voltage : D → Check D
  sensed_voltage cap_bitline =
      if is_dram g.cell.mem_cell_type
      then (let v =
            g.tech.vdd ⊘ whole 2 ⊗ g.cell.cap_dram_cell ⊘ (g.cell.cap_dram_cell ⊕ cap_bitline) in
          reject_if (v ≺ g.cell.min_sense_voltage) >>= (λ u. goes_on v))
      else (if is_nand g.cell.mem_cell_type
          then goes_on (max_d g.cell.min_sense_voltage (d.decimal 2 1 ⊗ g.tech.vdd))
          else goes_on g.cell.min_sense_voltage)
