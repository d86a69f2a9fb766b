-- ===== src/Cell/Modes.antt =====
-- MemCell.cpp, ReadCellFromFile: the words of its enumerating keys and the guards of its blocks.
use Prim.Native.String.{String}
use nvsim.Shared.{◌>>=◌, Bool, true, false, Option, [], ◌∷◌}
use nvsim.Types.{MemCellType, CellAccessType}
use nvsim.Config.{Entry, changed, scan_literal}
use nvsim.Cell.{MemCell}
use nvsim.Input.Words.{choose}

abbrev pub mem_cell_type_of : String → MemCellType
mem_cell_type_of tmp =
    choose tmp
      (("SRAM", MemCellType.sram)
        ∷ ("DRAM", MemCellType.dram)
        ∷ ("eDRAM", MemCellType.edram)
        ∷ ("MRAM", MemCellType.mram)
        ∷ ("PCRAM", MemCellType.pcram)
        ∷ ("FBRAM", MemCellType.fbram)
        ∷ ("memristor", MemCellType.memristor)
        ∷ ("SLCNAND", MemCellType.slcnand)
        ∷ [])
      MemCellType.mlcnand

abbrev pub access_type_of : String → CellAccessType
access_type_of tmp =
    choose tmp
      (("CMOS", CellAccessType.cmos_access)
        ∷ ("BJT", CellAccessType.bjt_access)
        ∷ ("diode", CellAccessType.diode_access)
        ∷ [])
      CellAccessType.none_access

abbrev pub is_voltage : String → Bool
is_voltage tmp = choose tmp (("voltage", true) ∷ []) false

abbrev pub is_true : String → Bool
is_true tmp = choose tmp (("true", true) ∷ []) false

abbrev pub cmos : CellAccessType → Bool
cmos CellAccessType.cmos_access = true
cmos _ = false

abbrev pub dram_type : MemCellType → Bool
dram_type MemCellType.dram = true
dram_type MemCellType.edram = true
dram_type _ = false

abbrev pub sram_type : MemCellType → Bool
sram_type MemCellType.sram = true
sram_type _ = false

abbrev pub flash_type : MemCellType → Bool
flash_type MemCellType.slcnand = true
flash_type MemCellType.mlcnand = true
flash_type _ = false

module _ {D : Type 0} where
  abbrev pub is_cmos : MemCell D → Bool
  is_cmos c = cmos c.access_type

  abbrev pub is_dram_cell : MemCell D → Bool
  is_dram_cell c = dram_type c.mem_cell_type

  abbrev pub is_sram : MemCell D → Bool
  is_sram c = sram_type c.mem_cell_type

  abbrev pub is_flash : MemCell D → Bool
  is_flash c = flash_type c.mem_cell_type

module _ {D : Type 0} (strtod : String → Option D) where
  -- `sscanf(line, "<format> %lf", &x); <f on x> continue;`
  abbrev pub real : String → String → (Option D → MemCell D → MemCell D) → Entry (MemCell D)
  real key format f = record {
    key = key;
    continues = true;
    action = λ line s. changed (f (scan_literal format line >>= strtod)) s;
  }
