-- ===== src/Input/Design.antt =====
-- InputParameter.cpp, ReadInputParameterFromFile: the keys up to the cache access mode.
use Prim.Native.String.{String}
use nvsim.Shared.{◌>>=◌, ℕ, ◌*◌, true, Option, List, [], ◌∷◌, if◌then◌else◌}
use nvsim.Config.{Entry, word, number, changed, get_or_else, scan_literal, scan_int, same}
use nvsim.Input.{exactly, InputParameter}
use nvsim.Input.Words.{
  design_target_of, optimization_target_of, device_roadmap_of, write_scheme_of,
  cache_access_mode_of,
}

module _ {D : Type 0} where
  -- A RAM or a CAM has no sets.
  abbrev pub set_design_target : String → InputParameter D → InputParameter D
  set_design_target w p =
      if same w "cache" then record p { design_target = design_target_of w } else record p {
        design_target = design_target_of w;
        search = record p.search { num_row_per_set = exactly 1 };
      }

  -- The local variable `cap` has no value before `sscanf` fills it.
  abbrev pub capacity_in : ℕ → String → String → Entry (InputParameter D)
  capacity_in unit key format = record {
    key = key;
    continues = true;
    action = λ line s.
        (scan_literal format line >>= scan_int)
        >>= (λ r. changed (λ p. record p { capacity = r.0 * unit }) s);
  }

module _ {D : Type 0} (strtod : String → Option D) where
  -- `sscanf(line, "<format> %lf", &x); continue;`
  abbrev pub real :
      String → String → (Option D → InputParameter D → InputParameter D) → Entry (InputParameter D)
  real key format f = record {
    key = key;
    continues = true;
    action = λ line s. changed (f (scan_literal format line >>= strtod)) s;
  }

  unfoldable pub design_keys : List (Entry (InputParameter D))
  design_keys =
      (word "-DesignTarget" "-DesignTarget: " set_design_target)
      ∷ (word "-OptimizationTarget" "-OptimizationTarget: "
          (λ w p. record p { optimization_target = optimization_target_of w }))
      ∷ (word "-OutputFilePrefix" "-OutputFilePrefix: "
          (λ w p. record p { output_file_prefix = w }))
      ∷ (number "-ProcessNode" "-ProcessNode: "
          (λ n p. record p { process_node = get_or_else n p.process_node }))
      ∷ (capacity_in 1 "-Capacity (B)" "-Capacity (B): ")
      ∷ (capacity_in 1024 "-Capacity (KB)" "-Capacity (KB): ")
      ∷ (capacity_in (1024 * 1024) "-Capacity (MB)" "-Capacity (MB): ")
      ∷ (number "-WordWidth" "-WordWidth (bit): "
          (λ n p. record p { word_width = get_or_else n p.word_width }))
      ∷ (number "-Associativity" "-Associativity (for cache only): "
          (λ n p. record p { associativity = get_or_else n p.associativity }))
      ∷ (number "-Temperature" "-Temperature (K): "
          (λ n p. record p { temperature = get_or_else n p.temperature }))
      ∷ (real "-MaxDriverCurrent" "-MaxDriverCurrent (uA): "
          (λ x p. record p { max_driver_current = get_or_else x p.max_driver_current }))
      ∷ (word "-DeviceRoadmap" "-DeviceRoadmap: "
          (λ w p. record p { device_roadmap = device_roadmap_of w }))
      ∷ (word "-WriteScheme" "-WriteScheme: "
          (λ w p. record p { write_scheme = write_scheme_of w }))
      ∷ (word "-CacheAccessMode" "-CacheAccessMode: "
          (λ w p. record p { cache_access_mode = cache_access_mode_of w }))
      ∷ []
