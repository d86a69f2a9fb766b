-- ===== src/Cell/WriteEnergy.antt =====
-- What CalculateWriteEnergy computes.
use nvsim.Shared.{◌≡◌, refl, false, Bool-cases, inl, inr, arith, ap, ◌∙◌}
use nvsim.Double.{Double, whole}
use nvsim.Cell.{MemCell}
use nvsim.Cell.Energy.{calculate_write_energy, set_energy_of, reset_energy_of, is_zero_d, filled}

module _ {D : Type 0} ⦃d : Double D⦄ where
  filled-twice :
      (energy computed : D) → filled (filled energy computed) computed ≡ filled energy computed
  unfolding filled
  filled-twice energy computed = elim (Bool-cases (is_zero_d energy)) [
    | inl e ↦ ground arith
    | inr e ↦ ground arith
  ]

  abbrev with_energies : MemCell D → D → D → MemCell D
  with_energies c reset set = record c { reset_energy = reset; set_energy = set }

  -- Computing the write energies a second time, at the same supply voltage, changes nothing, even when
  -- the first time gave an energy of zero.
  pub calculate_write_energy-idempotent :
      (vdd : D) (c : MemCell D)
      → calculate_write_energy vdd (calculate_write_energy vdd c) ≡ calculate_write_energy vdd c
  unfolding calculate_write_energy
  calculate_write_energy-idempotent vdd c =
      let f = reset_energy_of vdd c in
      let g = set_energy_of vdd c in
      ap (λ x. with_energies c x (filled (filled c.set_energy g) g)) (filled-twice c.reset_energy f)
      ∙ ap (λ y. with_energies c (filled c.reset_energy f) y) (filled-twice c.set_energy g)

  -- The cell whose set operation is the reset operation of the given one, and conversely.
  abbrev pub mirror : MemCell D → MemCell D
  mirror c = record c {
    reset_mode = c.set_mode;
    reset_voltage = c.set_voltage;
    reset_current = c.set_current;
    reset_pulse = c.set_pulse;
    reset_energy = c.set_energy;
    resistance_on_at_reset_voltage = c.resistance_on_at_set_voltage;
    set_mode = c.reset_mode;
    set_voltage = c.reset_voltage;
    set_current = c.reset_current;
    set_pulse = c.reset_pulse;
    set_energy = c.reset_energy;
    resistance_on_at_set_voltage = c.resistance_on_at_reset_voltage;
  }

  -- Set and reset are treated alike, where the two voltages are both zero or both not: computing the
  -- energies of the mirrored cell is mirroring the cell with its energies.
  pub calculate_write_energy-mirror :
      (vdd : D) (c : MemCell D)
      → d.eq c.set_voltage (whole 0) ≡ d.eq c.reset_voltage (whole 0)
      → calculate_write_energy vdd (mirror c) ≡ mirror (calculate_write_energy vdd c)
  unfolding calculate_write_energy
  calculate_write_energy-mirror vdd c h =
      let set_as_reset : reset_energy_of vdd (mirror c) ≡ set_energy_of vdd c = rw h refl in
      let reset_as_set : set_energy_of vdd (mirror c) ≡ reset_energy_of vdd c = rw h refl in
      ap
        (λ x.
          with_energies (mirror c) (filled c.set_energy x)
            (filled c.reset_energy (set_energy_of vdd (mirror c))))
        set_as_reset
      ∙ ap
          (λ y.
            with_energies (mirror c) (filled c.set_energy (set_energy_of vdd c))
              (filled c.reset_energy y))
          reset_as_set

  -- The energy of a current-mode set is the same at any two supply voltages, if the reset voltage is not
  -- zero: so also where the set voltage is zero.
  pub calculate_write_energy-set_without_supply :
      (vdd vdd' : D) (c : MemCell D)
      → c.set_mode ≡ false
      → d.eq c.reset_voltage (whole 0) ≡ false
      → (calculate_write_energy vdd c).set_energy ≡ (calculate_write_energy vdd' c).set_energy
  unfolding calculate_write_energy
  calculate_write_energy-set_without_supply vdd vdd' c h k =
      let same : set_energy_of vdd c ≡ set_energy_of vdd' c = rw (h, k) refl in
      ap (λ x. filled c.set_energy x) same
