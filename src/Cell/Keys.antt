-- ===== src/Cell/Keys.antt =====
-- MemCell.cpp, ReadCellFromFile: its keys. A block with a guard ignores the line where that fails, and
-- only prints a warning.
use Prim.Native.String.{String}
use nvsim.Shared.{◌^◌, Option, List, [], ◌∷◌, if◌then◌else◌}
use nvsim.Double.{Double, ◌⊗◌, ◌⊘◌, whole}
use nvsim.Config.{Entry, word, number, get_or_else}
use nvsim.Cell.{MemCell}
use nvsim.Cell.Modes.{
  real, mem_cell_type_of, access_type_of, is_voltage, is_true, is_cmos, is_dram_cell, is_sram,
  is_flash,
}

module _ {D : Type 0} ⦃d : Double D⦄ where
  -- The sides are those of the area that stands in the file before.
  abbrev pub set_aspect_ratio : Option D → MemCell D → MemCell D
  set_aspect_ratio x c =
      let ratio = get_or_else x c.aspect_ratio in
      record c {
        aspect_ratio = ratio;
        height_in_feature_size = d.sqrt (c.area ⊗ ratio);
        width_in_feature_size = d.sqrt (c.area ⊘ ratio);
      }

module _ {D : Type 0} ⦃d : Double D⦄ (strtod : String → Option D) where
  unfoldable pub read_keys : List (Entry (MemCell D))
  read_keys =
      (word "-MemCellType" "-MemCellType: "
        (λ w c. record c { mem_cell_type = mem_cell_type_of w }))
      ∷ (number "-ProcessNode" "-ProcessNode: "
          (λ n c. record c { process_node = get_or_else n c.process_node }))
      ∷ (real strtod "-CellArea" "-CellArea (F^2): "
          (λ x c. record c { area = get_or_else x c.area }))
      ∷ (real strtod "-CellAspectRatio" "-CellAspectRatio: " set_aspect_ratio)
      ∷ (real strtod "-ResistanceOnAtSetVoltage" "-ResistanceOnAtSetVoltage (ohm): " (λ x c.
          record c { resistance_on_at_set_voltage = get_or_else x c.resistance_on_at_set_voltage }))
      ∷ (real strtod "-ResistanceOffAtSetVoltage" "-ResistanceOffAtSetVoltage (ohm): " (λ x c.
          record c {
            resistance_off_at_set_voltage = get_or_else x c.resistance_off_at_set_voltage;
          }))
      ∷ (real strtod "-ResistanceOnAtResetVoltage" "-ResistanceOnAtResetVoltage (ohm): " (λ x c.
          record c {
            resistance_on_at_reset_voltage = get_or_else x c.resistance_on_at_reset_voltage;
          }))
      ∷ (real strtod "-ResistanceOffAtResetVoltage" "-ResistanceOffAtResetVoltage (ohm): " (λ x c.
          record c {
            resistance_off_at_reset_voltage = get_or_else x c.resistance_off_at_reset_voltage;
          }))
      ∷ (real strtod "-ResistanceOnAtReadVoltage" "-ResistanceOnAtReadVoltage (ohm): " (λ x c.
          let value = get_or_else x c.resistance_on_at_read_voltage in
          record c { resistance_on_at_read_voltage = value; resistance_on = value }))
      ∷ (real strtod "-ResistanceOffAtReadVoltage" "-ResistanceOffAtReadVoltage (ohm): " (λ x c.
          let value = get_or_else x c.resistance_off_at_read_voltage in
          record c { resistance_off_at_read_voltage = value; resistance_off = value }))
      ∷ (real strtod "-ResistanceOnAtHalfReadVoltage" "-ResistanceOnAtHalfReadVoltage (ohm): "
          (λ x c. record c {
            resistance_on_at_half_read_voltage = get_or_else x c.resistance_on_at_half_read_voltage;
          }))
      ∷ (real strtod "-ResistanceOffAtHalfReadVoltage" "-ResistanceOffAtHalfReadVoltage (ohm): "
          (λ x c. record c {
            resistance_off_at_half_read_voltage =
                get_or_else x c.resistance_off_at_half_read_voltage;
          }))
      ∷ (real strtod "-ResistanceOnAtHalfResetVoltage" "-ResistanceOnAtHalfResetVoltage (ohm): "
          (λ x c. record c {
            resistance_on_at_half_reset_voltage =
                get_or_else x c.resistance_on_at_half_reset_voltage;
          }))
      ∷ (real strtod "-ResistanceOn" "-ResistanceOn (ohm): "
          (λ x c. record c { resistance_on = get_or_else x c.resistance_on }))
      ∷ (real strtod "-ResistanceOff" "-ResistanceOff (ohm): "
          (λ x c. record c { resistance_off = get_or_else x c.resistance_off }))
      ∷ (real strtod "-CapacitanceOn" "-CapacitanceOn (F): "
          (λ x c. record c { capacitance_on = get_or_else x c.capacitance_on }))
      ∷ (real strtod "-CapacitanceOff" "-CapacitanceOff (F): "
          (λ x c. record c { capacitance_off = get_or_else x c.capacitance_off }))
      ∷ (real strtod "-GateOxThicknessFactor" "-GateOxThicknessFactor: "
          (λ x c. record c { gate_ox_thickness_factor = get_or_else x c.gate_ox_thickness_factor }))
      ∷ (real strtod "-SOIDeviceWidth (F)" "-SOIDeviceWidth (F): "
          (λ x c. record c { width_soi_device = get_or_else x c.width_soi_device }))
      ∷ (word "-ReadMode" "-ReadMode: " (λ w c. record c { read_mode = is_voltage w }))
      ∷ (real strtod "-ReadVoltage" "-ReadVoltage (V): "
          (λ x c. record c { read_voltage = get_or_else x c.read_voltage }))
      ∷ (real strtod "-ReadCurrent" "-ReadCurrent (uA): "
          (λ x c. record c { read_current = get_or_else x c.read_current ⊘ whole (10 ^ 6) }))
      ∷ (real strtod "-ReadPower" "-ReadPower (uW): "
          (λ x c. record c { read_power = get_or_else x c.read_power ⊘ whole (10 ^ 6) }))
      ∷ (real strtod "-WordlineBoostRatio" "-WordlineBoostRatio: "
          (λ x c. record c { wordline_boost_ratio = get_or_else x c.wordline_boost_ratio }))
      ∷ (real strtod "-MinSenseVoltage" "-MinSenseVoltage (mV): " (λ x c. record c {
        min_sense_voltage = get_or_else x c.min_sense_voltage ⊘ whole (10 ^ 3);
      }))
      ∷ []

  unfoldable pub write_keys : List (Entry (MemCell D))
  write_keys =
      (word "-ResetMode" "-ResetMode: " (λ w c. record c { reset_mode = is_voltage w }))
      ∷ (real strtod "-ResetVoltage" "-ResetVoltage (V): "
          (λ x c. record c { reset_voltage = get_or_else x c.reset_voltage }))
      ∷ (real strtod "-ResetCurrent" "-ResetCurrent (uA): "
          (λ x c. record c { reset_current = get_or_else x c.reset_current ⊘ whole (10 ^ 6) }))
      ∷ (real strtod "-ResetVoltage" "-ResetVoltage (V): "
          (λ x c. record c { reset_voltage = get_or_else x c.reset_voltage }))
      ∷ (real strtod "-ResetPulse" "-ResetPulse (ns): "
          (λ x c. record c { reset_pulse = get_or_else x c.reset_pulse ⊘ whole (10 ^ 9) }))
      ∷ (real strtod "-ResetEnergy" "-ResetEnergy (pJ): "
          (λ x c. record c { reset_energy = get_or_else x c.reset_energy ⊘ whole (10 ^ 12) }))
      ∷ (word "-SetMode" "-SetMode: " (λ w c. record c { set_mode = is_voltage w }))
      ∷ (real strtod "-SetVoltage" "-SetVoltage (V): "
          (λ x c. record c { set_voltage = get_or_else x c.set_voltage }))
      ∷ (real strtod "-SetCurrent" "-SetCurrent (uA): "
          (λ x c. record c { set_current = get_or_else x c.set_current ⊘ whole (10 ^ 6) }))
      ∷ (real strtod "-SetVoltage" "-SetVoltage (V): "
          (λ x c. record c { set_voltage = get_or_else x c.set_voltage }))
      ∷ (real strtod "-SetPulse" "-SetPulse (ns): "
          (λ x c. record c { set_pulse = get_or_else x c.set_pulse ⊘ whole (10 ^ 9) }))
      ∷ (real strtod "-SetEnergy" "-SetEnergy (pJ): "
          (λ x c. record c { set_energy = get_or_else x c.set_energy ⊘ whole (10 ^ 12) }))
      ∷ (word "-AccessType" "-AccessType: " (λ w c. record c { access_type = access_type_of w }))
      ∷ []

  unfoldable pub device_keys : List (Entry (MemCell D))
  device_keys =
      (real strtod "-AccessCMOSWidth" "-AccessCMOSWidth (F): " (λ x c.
        if is_cmos c
        then record c { width_access_cmos = get_or_else x c.width_access_cmos }
        else c))
      ∷ (real strtod "-VoltageDropAccessDevice" "-VoltageDropAccessDevice (V): " (λ x c. record c {
        voltage_drop_access_device = get_or_else x c.voltage_drop_access_device;
      }))
      ∷ (real strtod "-LeakageCurrentAccessDevice" "-LeakageCurrentAccessDevice (uA): " (λ x c.
          record c {
            leakage_current_access_device =
                get_or_else x c.leakage_current_access_device ⊘ whole (10 ^ 6);
          }))
      ∷ (real strtod "-DRAMCellCapacitance" "-DRAMCellCapacitance (F): " (λ x c.
          if is_dram_cell c then record c { cap_dram_cell = get_or_else x c.cap_dram_cell } else c))
      ∷ (real strtod "-SRAMCellNMOSWidth" "-SRAMCellNMOSWidth (F): " (λ x c.
          if is_sram c
          then record c { width_sram_cell_nmos = get_or_else x c.width_sram_cell_nmos }
          else c))
      ∷ (real strtod "-SRAMCellPMOSWidth" "-SRAMCellPMOSWidth (F): " (λ x c.
          if is_sram c
          then record c { width_sram_cell_pmos = get_or_else x c.width_sram_cell_pmos }
          else c))
      ∷ (word "-ReadFloating" "-ReadFloating: " (λ w c. record c { read_floating = is_true w }))
      ∷ (real strtod "-FlashEraseVoltage (V)" "-FlashEraseVoltage (V): " (λ x c.
          if is_flash c
          then record c { flash_erase_voltage = get_or_else x c.flash_erase_voltage }
          else c))
      ∷ (real strtod "-FlashProgramVoltage (V)" "-FlashProgramVoltage (V): " (λ x c.
          if is_flash c
          then record c { flash_program_voltage = get_or_else x c.flash_program_voltage }
          else c))
      ∷ (real strtod "-FlashPassVoltage (V)" "-FlashPassVoltage (V): " (λ x c.
          if is_flash c
          then record c { flash_pass_voltage = get_or_else x c.flash_pass_voltage }
          else c))
      ∷ (real strtod "-FlashEraseTime" "-FlashEraseTime (ms): " (λ x c.
          if is_flash c
          then record c { flash_erase_time = get_or_else x c.flash_erase_time ⊘ whole (10 ^ 3) }
          else c))
      ∷ (real strtod "-FlashProgramTime" "-FlashProgramTime (us): " (λ x c.
          if is_flash c
          then record c { flash_program_time = get_or_else x c.flash_program_time ⊘ whole (10 ^ 6) }
          else c))
      ∷ (real strtod "-GateCouplingRatio" "-GateCouplingRatio: " (λ x c.
          if is_flash c
          then record c { gate_coupling_ratio = get_or_else x c.gate_coupling_ratio }
          else c))
      ∷ []
