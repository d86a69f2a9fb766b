-- ===== src/Cell/Reader.antt =====
-- MemCell.cpp: ReadCellFromFile, and which of its keys handles a line.
use Prim.Native.String.{String}
use nvsim.Shared.{◌≡◌, refl, true, Option, none, some, List, ◌++◌}
use nvsim.Double.{Double}
use nvsim.Config.{State, Entry, run, run_lines, lookup, starts_with, is_ordered}
use nvsim.Config.Longest.{IsLongest, run-longest}
use nvsim.Cell.{MemCell}
use nvsim.Cell.Keys.{read_keys, write_keys, device_keys}

module _ {D : Type 0} (d : Double D) (strtod : String → Option D) where
  unfoldable pub cell_keys : List (Entry (MemCell D))
  unfolding read_keys write_keys device_keys
  cell_keys = read_keys ⦃d = d⦄ strtod ++ (write_keys ⦃d = d⦄ strtod ++ device_keys ⦃d = d⦄ strtod)

  -- The lines of a file that could be opened; the buffer `tmp` is empty at first.
  unfoldable pub read_cell : List String → MemCell D → Option (State (MemCell D))
  unfolding run_lines cell_keys
  read_cell lines c = run_lines cell_keys lines (record { tmp = none; value = c })

  cell_keys-ordered : is_ordered cell_keys ≡ true
  unfolding is_ordered cell_keys
  cell_keys-ordered = refl

  -- A line that begins with a key of the cell file, and with no longer one, is handled by the first
  -- block of that key and by no other, although some keys begin with others.
  pub cell_keys-longest :
      (line : String) (s : State (MemCell D)) (e : Entry (MemCell D))
      → lookup e.key cell_keys ≡ some e
      → starts_with line e.key ≡ true
      → IsLongest e.key line cell_keys
      → run cell_keys line s ≡ e.action line s
  cell_keys-longest line s e found h longest =
      run-longest cell_keys line s e cell_keys-ordered found h longest
