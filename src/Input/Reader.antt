-- ===== src/Input/Reader.antt =====
-- InputParameter.cpp: ReadInputParameterFromFile.
use Prim.Native.String.{String}
use nvsim.Shared.{Option, none, List, ◌++◌}
use nvsim.Config.{State, Entry, run_lines}
use nvsim.Input.{InputParameter}
use nvsim.Input.Design.{design_keys}
use nvsim.Input.Searching.{search_keys}
use nvsim.Input.Bounding.{bound_keys}

module _ {D : Type 0} (strtod : String → Option D) where
  unfoldable pub parameter_keys : List (Entry (InputParameter D))
  unfolding design_keys search_keys bound_keys
  parameter_keys = design_keys strtod ++ (search_keys strtod ++ bound_keys strtod)

  -- The lines of a file that could be opened; the buffer `tmp` is empty at first.
  unfoldable pub read_input_parameter :
      List String → InputParameter D → Option (State (InputParameter D))
  unfolding run_lines parameter_keys
  read_input_parameter lines p = run_lines parameter_keys lines (record { tmp = none; value = p })
