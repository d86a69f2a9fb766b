-- ===== src/Input/Searching.antt =====
-- InputParameter.cpp, ReadInputParameterFromFile: the keys of wires, routing, forced shapes and CACTI's
-- assumption.
use Prim.Native.String.{String}
use nvsim.Shared.{◌>>=◌, ℕ, true, false, Option, none, some, List, [], ◌∷◌, if◌then◌else◌}
use nvsim.Config.{Entry, word, number, changed, get_or_else, scan_literal, scan_int, same}
use nvsim.Input.{exactly, SearchSpace, InputParameter}
use nvsim.Input.Words.{wire_type_of, repeater_of, routing_mode_of, yes, is_true}
use nvsim.Input.Design.{real}

-- `%dx%d, %dx%d`: the numbers that are read before the text stops to fit, the others keeping their value.
abbrev pub after_literal : String → Option (ℕ × String) → Option (ℕ × String)
after_literal format r = r >>= (λ n. scan_literal format n.1 >>= scan_int)

abbrev pub value_of : Option (ℕ × String) → ℕ → ℕ
value_of none old = old
value_of (some r) old = r.0

abbrev pub force_bank : String → SearchSpace → SearchSpace
force_bank line s =
    let a = scan_literal "-ForceBank (Total AxB, Active CxD): " line >>= scan_int in
    let b = after_literal "x" a in
    let c = after_literal ", " b in
    let d = after_literal "x" c in
    record s {
      num_row_mat = exactly (value_of a s.num_row_mat.low);
      num_column_mat = exactly (value_of b s.num_column_mat.low);
      num_active_mat_per_column = exactly (value_of c s.num_active_mat_per_column.low);
      num_active_mat_per_row = exactly (value_of d s.num_active_mat_per_row.low);
    }

abbrev pub force_mat : String → SearchSpace → SearchSpace
force_mat line s =
    let a = scan_literal "-ForceMat (Total AxB, Active CxD): " line >>= scan_int in
    let b = after_literal "x" a in
    let c = after_literal ", " b in
    let d = after_literal "x" c in
    record s {
      num_row_subarray = exactly (value_of a s.num_row_subarray.low);
      num_column_subarray = exactly (value_of b s.num_column_subarray.low);
      num_active_subarray_per_column = exactly (value_of c s.num_active_subarray_per_column.low);
      num_active_subarray_per_row = exactly (value_of d s.num_active_subarray_per_row.low);
    }

-- CACTI activates a whole row of mats of two by two subarrays.
abbrev pub as_cacti : SearchSpace → SearchSpace
as_cacti s = record s {
  num_active_mat_per_row = exactly s.num_column_mat.high;
  num_active_mat_per_column = exactly 1;
  num_row_subarray = exactly 2;
  num_column_subarray = exactly 2;
  num_active_subarray_per_row = exactly 2;
  num_active_subarray_per_column = exactly 2;
}

module _ {D : Type 0} where
  abbrev pub set_cacti : String → InputParameter D → InputParameter D
  set_cacti w p =
      if same w "Yes"
      then record p { use_cacti_assumption = true; search = as_cacti p.search }
      else record p { use_cacti_assumption = false }

  abbrev pub forced : String → (String → SearchSpace → SearchSpace) → Entry (InputParameter D)
  forced key f = record {
    key = key;
    continues = true;
    action = λ line s. changed (λ p. record p { search = f line p.search }) s;
  }

module _ {D : Type 0} (strtod : String → Option D) where
  unfoldable pub search_keys : List (Entry (InputParameter D))
  search_keys =
      (word "-LocalWireType" "-LocalWireType: " (λ w p. record p {
        search = record p.search { local_wire_type = exactly (wire_type_of w) };
      }))
      ∷ (word "-LocalWireRepeaterType" "-LocalWireRepeaterType: " (λ w p. record p {
        search = record p.search { local_wire_repeater_type = exactly (repeater_of w) };
      }))
      ∷ (word "-LocalWireUseLowSwing" "-LocalWireUseLowSwing: " (λ w p. record p {
        search = record p.search { is_local_wire_low_swing = exactly (yes w) };
      }))
      ∷ (word "-GlobalWireType" "-GlobalWireType: " (λ w p. record p {
        search = record p.search { global_wire_type = exactly (wire_type_of w) };
      }))
      ∷ (word "-GlobalWireRepeaterType" "-GlobalWireRepeaterType: " (λ w p. record p {
        search = record p.search { global_wire_repeater_type = exactly (repeater_of w) };
      }))
      ∷ (word "-GlobalWireUseLowSwing" "-GlobalWireUseLowSwing: " (λ w p. record p {
        search = record p.search { is_global_wire_low_swing = exactly (yes w) };
      }))
      ∷ (word "-Routing" "-Routing: " (λ w p. record p { routing_mode = routing_mode_of w }))
      ∷ (word "-InternalSensing" "-InternalSensing: "
          (λ w p. record p { internal_sensing = is_true w }))
      ∷ (word "-MemoryCellInputFile" "-MemoryCellInputFile: "
          (λ w p. record p { file_mem_cell = w }))
      ∷ (real strtod "-MaxNmosSize" "-MaxNmosSize (F): "
          (λ x p. record p { max_nmos_size = get_or_else x p.max_nmos_size }))
      ∷ (forced "-ForceBank" force_bank)
      ∷ (forced "-ForceMat" force_mat)
      ∷ (number "-ForceMuxSenseAmp" "-ForceMuxSenseAmp: " (λ n p. record p {
        search = record p.search {
          mux_sense_amp = exactly (get_or_else n p.search.mux_sense_amp.low);
        };
      }))
      ∷ (number "-ForceMuxOutputLev1" "-ForceMuxOutputLev1: " (λ n p. record p {
        search = record p.search {
          mux_output_lev1 = exactly (get_or_else n p.search.mux_output_lev1.low);
        };
      }))
      ∷ (number "-ForceMuxOutputLev2" "-ForceMuxOutputLev2: " (λ n p. record p {
        search = record p.search {
          mux_output_lev2 = exactly (get_or_else n p.search.mux_output_lev2.low);
        };
      }))
      ∷ (word "-UseCactiAssumption" "-UseCactiAssumption: " set_cacti)
      ∷ []
