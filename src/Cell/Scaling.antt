-- ===== src/Cell/Scaling.antt =====
-- MemCell.cpp: CellScaling, from the cell's process node to the one of the design.
use nvsim.Shared.{
  ℕ, ◌≡◌, refl, false, Bool-cases, not, ◌&&◌, ltb, ◌==◌, if◌then◌else◌, inl, inr, arith,
}
use nvsim.Types.{MemCellType, CellAccessType}
use nvsim.Double.{Double, ◌⊗◌, ◌⊘◌, whole}
use nvsim.Cell.{MemCell}

module _ {D : Type 0} ⦃d : Double D⦄ where
  abbrev scale_capacitance_by : D → CellAccessType → MemCell D → MemCell D
  scale_capacitance_by factor CellAccessType.diode_access c = record c {
    capacitance_on = c.capacitance_on ⊘ factor;
    capacitance_off = c.capacitance_off ⊘ factor;
  }
  scale_capacitance_by factor CellAccessType.cmos_access c = c
  scale_capacitance_by factor CellAccessType.bjt_access c = c
  scale_capacitance_by factor CellAccessType.none_access c = c

  -- The currents where the mode is not the voltage, else the voltages, by the second factor.
  abbrev scale_drive : D → D → MemCell D → MemCell D
  scale_drive factor voltage c =
      let set =
        if c.set_mode
        then record c { set_voltage = c.set_voltage ⊗ voltage }
        else record c { set_current = c.set_current ⊘ factor } in
      if c.reset_mode
      then record set { reset_voltage = c.reset_voltage ⊗ voltage }
      else record set { reset_current = c.reset_current ⊘ factor }

  abbrev scale_resistance : D → MemCell D → MemCell D
  scale_resistance by c = record c {
    resistance_on = c.resistance_on ⊗ by;
    resistance_off = c.resistance_off ⊗ by;
  }

  abbrev pub scale_kind : D → MemCellType → MemCell D → MemCell D
  scale_kind factor MemCellType.pcram c =
      scale_capacitance_by factor c.access_type
        (scale_drive factor (whole 1) (scale_resistance factor c))
  scale_kind factor MemCellType.mram c =
      scale_capacitance_by factor c.access_type
        (scale_drive factor factor (scale_resistance (factor ⊗ factor) c))
  scale_kind factor _ c = c

  unfoldable pub cell_scaling : ℕ → MemCell D → MemCell D
  cell_scaling target c =
      if ltb 0 c.process_node && not (c.process_node == target)
      then record (scale_kind (whole c.process_node ⊘ whole target) c.mem_cell_type c) {
        process_node = target;
      }
      else c

  at_target : (target : ℕ) (c : MemCell D) → c.process_node ≡ target → cell_scaling target c ≡ c
  unfolding cell_scaling
  at_target target c e =
      let same : ltb 0 c.process_node && not (c.process_node == target) ≡ false = ground arith in
      rw same refl

  -- Scaling a cell twice to one process node is scaling it once, whatever its node was before.
  pub cell_scaling-idempotent :
      (target : ℕ) (c : MemCell D)
      → cell_scaling target (cell_scaling target c) ≡ cell_scaling target c
  unfolding cell_scaling
  cell_scaling-idempotent target c =
      elim (Bool-cases (ltb 0 c.process_node && not (c.process_node == target))) [
        | inl on ↦ rw on (at_target target _ refl)
        | inr off ↦ rw (off, off) refl
      ]
