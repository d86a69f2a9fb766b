-- ===== src/Input/Dispatch.antt =====
-- Which key of an input file handles a line.
use Prim.Native.String.{String}
use nvsim.Shared.{◌≡◌, refl, true, Option, some}
use nvsim.Config.{State, Entry, run, lookup, starts_with, is_ordered}
use nvsim.Config.Longest.{IsLongest, run-longest}
use nvsim.Input.{InputParameter}
use nvsim.Input.Reader.{parameter_keys}

module _ {D : Type 0} (strtod : String → Option D) where
  parameter_keys-ordered : is_ordered (parameter_keys strtod) ≡ true
  unfolding is_ordered parameter_keys
  parameter_keys-ordered = refl

  -- A line that begins with a key of the parameter file, and with no longer one, is handled by that
  -- key's block and by no other, although one block lacks its `continue`.
  pub parameter_keys-longest :
      (line : String) (s : State (InputParameter D)) (e : Entry (InputParameter D))
      → lookup e.key (parameter_keys strtod) ≡ some e
      → starts_with line e.key ≡ true
      → IsLongest e.key line (parameter_keys strtod)
      → run (parameter_keys strtod) line s ≡ e.action line s
  parameter_keys-longest line s e found h longest =
      run-longest (parameter_keys strtod) line s e parameter_keys-ordered found h longest
