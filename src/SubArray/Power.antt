-- ===== src/SubArray/Power.antt =====
-- SubArray.cpp: SubArray::CalculatePower. It fills in the write energies of the global cell, so the cell
-- is a part of its result.
use nvsim.Shared.{true, false, not, ◌&&◌, if◌then◌else◌, Option, some, ◌>>=◌}
use nvsim.Double.{Double, ◌⊕◌, ◌⊘◌, whole}
use nvsim.FunctionUnit.{FunctionUnit, huge, with_power}
use nvsim.Globals.{Globals}
use nvsim.Cell.{MemCell}
use nvsim.Circuit.Mux
use nvsim.Circuit.SenseAmp
use nvsim.Circuit.SenseAmp.{Amplifiers}
use nvsim.Circuit.Precharger
use nvsim.Circuit.RowDecoder
use nvsim.SubArray.State.{Subarray}
use nvsim.SubArray.Legality.{is_cache, is_sequential}
use nvsim.SubArray.Bitline.{is_crossbar}
use nvsim.SubArray.CellPower.{power_by}

module _ {D : Type 0} ⦃d : Double D⦄ (g : Globals D) where
  abbrev amplifier_power : Subarray D → Option (Amplifiers D)
  amplifier_power s =
      if s.request.internal_sense_amp
      then SenseAmp.calculate_power g s.sense_amp
      else some s.sense_amp

  -- The circuits with their powers.
  unfoldable pub with_powers : Subarray D → Option (Subarray D)
  with_powers s = do
    precharger ← Precharger.calculate_power g s.precharger
    rows ← RowDecoder.calculate_power g s.row_decoder
    bitlines ← RowDecoder.calculate_power g s.bitline_mux_decoder
    lev1 ← RowDecoder.calculate_power g s.sense_amp_mux_lev1_decoder
    lev2 ← RowDecoder.calculate_power g s.sense_amp_mux_lev2_decoder
    amps ← amplifier_power s
    some (record s {
      precharger = precharger;
      row_decoder = rows;
      bitline_mux_decoder = bitlines;
      sense_amp_mux_lev1_decoder = lev1;
      sense_amp_mux_lev2_decoder = lev2;
      bitline_mux = Mux.calculate_power g s.bitline_mux;
      sense_amp = amps;
      sense_amp_mux_lev1 = Mux.calculate_power g s.sense_amp_mux_lev1;
      sense_amp_mux_lev2 = Mux.calculate_power g s.sense_amp_mux_lev2;
    })

  -- Of all the ways that a cache reads at once only one is written.
  abbrev one_way : FunctionUnit D → FunctionUnit D
  one_way u =
      let ways = whole g.input.associativity in
      if is_cache g.input.design_target && not (is_sequential g.input.cache_access_mode)
      then record u {
        cell_reset_energy = u.cell_reset_energy ⊘ ways;
        cell_set_energy = u.cell_set_energy ⊘ ways;
        write_dynamic_energy = u.write_dynamic_energy ⊘ ways;
        reset_dynamic_energy = u.reset_dynamic_energy ⊘ ways;
        set_dynamic_energy = u.set_dynamic_energy ⊘ ways;
      }
      else u

  -- What a row decoder's energy and the write energies of the columns come to.
  abbrev columns_write : D → Subarray D → D
  columns_write rows s =
      rows ⊕ s.bitline_mux_decoder.figures.write_dynamic_energy
      ⊕ s.sense_amp_mux_lev1_decoder.figures.write_dynamic_energy
      ⊕ s.sense_amp_mux_lev2_decoder.figures.write_dynamic_energy
      ⊕ s.bitline_mux.figures.write_dynamic_energy ⊕ s.sense_amp.figures.write_dynamic_energy
      ⊕ s.sense_amp_mux_lev1.figures.write_dynamic_energy
      ⊕ s.sense_amp_mux_lev2.figures.write_dynamic_energy

  abbrev read_parts : D → Subarray D → D
  read_parts cells s =
      cells ⊕ s.row_decoder.figures.read_dynamic_energy
      ⊕ s.bitline_mux_decoder.figures.read_dynamic_energy
      ⊕ s.sense_amp_mux_lev1_decoder.figures.read_dynamic_energy
      ⊕ s.sense_amp_mux_lev2_decoder.figures.read_dynamic_energy
      ⊕ s.precharger.figures.read_dynamic_energy ⊕ s.bitline_mux.figures.read_dynamic_energy
      ⊕ s.sense_amp.figures.read_dynamic_energy ⊕ s.sense_amp_mux_lev1.figures.read_dynamic_energy
      ⊕ s.sense_amp_mux_lev2.figures.read_dynamic_energy

  abbrev leakage_parts : Subarray D → D
  leakage_parts s =
      s.row_decoder.figures.leakage ⊕ s.bitline_mux_decoder.figures.leakage
      ⊕ s.sense_amp_mux_lev1_decoder.figures.leakage ⊕ s.sense_amp_mux_lev2_decoder.figures.leakage
      ⊕ s.precharger.figures.leakage ⊕ s.bitline_mux.figures.leakage ⊕ s.sense_amp.figures.leakage
      ⊕ s.sense_amp_mux_lev1.figures.leakage ⊕ s.sense_amp_mux_lev2.figures.leakage

  -- Unselected columns of a crossbar are driven too.
  abbrev crossbar_write : Subarray D → D → D
  crossbar_write s written =
      if is_crossbar g.cell.access_type
      then written
        ⊕ (s.bitline_mux.figures.write_dynamic_energy ⊕ s.sense_amp.figures.write_dynamic_energy
            ⊕ s.sense_amp_mux_lev1.figures.write_dynamic_energy
            ⊕ s.sense_amp_mux_lev2.figures.write_dynamic_energy)
      else written

  -- The figures of the subarray with those of its circuits added. The reset energy gets the set energy
  -- added, not that of the cells' reset.
  unfoldable pub with_circuits_added : Subarray D → FunctionUnit D
  with_circuits_added s =
      let u = one_way s.figures in
      let rows = s.row_decoder.figures in
      let set =
        u.set_dynamic_energy ⊕ columns_write (u.cell_set_energy ⊕ rows.set_dynamic_energy) s in
      record u {
        read_dynamic_energy = u.read_dynamic_energy ⊕ read_parts u.cell_read_energy s;
        write_dynamic_energy =
            crossbar_write s (u.write_dynamic_energy ⊕ columns_write rows.write_dynamic_energy s);
        set_dynamic_energy = set;
        reset_dynamic_energy =
            u.reset_dynamic_energy ⊕ columns_write (set ⊕ rows.reset_dynamic_energy) s;
        leakage = u.leakage ⊕ leakage_parts s;
      }

  -- The global cell and the subarray afterwards.
  unfoldable pub calculate_power : Subarray D → Option (MemCell D × Subarray D)
  calculate_power s = elim s.initialized [
    | false ↦ some (g.cell, s)
    | true ↦ elim s.is_invalid [
      | true ↦ some (g.cell, record s { figures = with_power huge huge huge s.figures })
      | false ↦ do
        t ← with_powers s
        r ← power_by g g.cell.mem_cell_type t
        some (r.0, record r.1 { figures = with_circuits_added r.1 })
    ]
  ]
