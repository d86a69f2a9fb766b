-- ===== src/Input/Words.antt =====
-- InputParameter.cpp: what the values of the enumerating keys stand for, the last answer being the
-- final `else`.
use Prim.Native.String.{String}
use nvsim.Shared.{ℕ, Bool, true, false, List, [], ◌∷◌, if◌then◌else◌}
use nvsim.Types.{
  DesignTarget, OptimizationTarget, DeviceRoadmap, WriteScheme, CacheAccessMode, RoutingMode,
  WireType, WireRepeaterType, wire_type_number, repeater_number,
}
use nvsim.Config.{same}

-- A chain of `if (!strcmp(tmp, word)) ... else ...`.
abbrev pub choose : {A : Type 0} → String → List (String × A) → A → A
choose tmp [] last = last
choose tmp ((word, a) ∷ rest) last =
    let later = choose tmp rest last in if same tmp word then a else later

abbrev pub design_target_of : String → DesignTarget
design_target_of tmp =
    choose tmp (("cache", DesignTarget.cache) ∷ ("RAM", DesignTarget.ram_chip) ∷ [])
      DesignTarget.cam_chip

abbrev pub optimization_target_of : String → OptimizationTarget
optimization_target_of tmp =
    choose tmp
      (("ReadLatency", OptimizationTarget.read_latency_optimized)
        ∷ ("WriteLatency", OptimizationTarget.write_latency_optimized)
        ∷ ("ReadDynamicEnergy", OptimizationTarget.read_energy_optimized)
        ∷ ("WriteDynamicEnergy", OptimizationTarget.write_energy_optimized)
        ∷ ("ReadEDP", OptimizationTarget.read_edp_optimized)
        ∷ ("WriteEDP", OptimizationTarget.write_edp_optimized)
        ∷ ("LeakagePower", OptimizationTarget.leakage_optimized)
        ∷ ("Area", OptimizationTarget.area_optimized)
        ∷ [])
      OptimizationTarget.full_exploration

abbrev pub device_roadmap_of : String → DeviceRoadmap
device_roadmap_of tmp =
    choose tmp (("HP", DeviceRoadmap.hp) ∷ ("LSTP", DeviceRoadmap.lstp) ∷ []) DeviceRoadmap.lop

abbrev pub write_scheme_of : String → WriteScheme
write_scheme_of tmp =
    choose tmp
      (("SetBeforeReset", WriteScheme.set_before_reset)
        ∷ ("ResetBeforeSet", WriteScheme.reset_before_set)
        ∷ ("EraseBeforeSet", WriteScheme.erase_before_set)
        ∷ ("EraseBeforeReset", WriteScheme.erase_before_reset)
        ∷ ("WriteAndVerify", WriteScheme.write_and_verify)
        ∷ [])
      WriteScheme.normal_write

abbrev pub cache_access_mode_of : String → CacheAccessMode
cache_access_mode_of tmp =
    choose tmp
      (("Sequential", CacheAccessMode.sequential_access_mode)
        ∷ ("Fast", CacheAccessMode.fast_access_mode)
        ∷ [])
      CacheAccessMode.normal_access_mode

abbrev pub wire_type_of : String → ℕ
wire_type_of tmp =
    choose tmp
      (("LocalAggressive", wire_type_number WireType.local_aggressive)
        ∷ ("LocalConservative", wire_type_number WireType.local_conservative)
        ∷ ("SemiAggressive", wire_type_number WireType.semi_aggressive)
        ∷ ("SemiConservative", wire_type_number WireType.semi_conservative)
        ∷ ("GlobalAggressive", wire_type_number WireType.global_aggressive)
        ∷ ("GlobalConservative", wire_type_number WireType.global_conservative)
        ∷ [])
      (wire_type_number WireType.dram_wordline)

abbrev pub repeater_of : String → ℕ
repeater_of tmp =
    choose tmp
      (("RepeatedOpt", repeater_number WireRepeaterType.repeated_opt)
        ∷ ("Repeated5%Penalty", repeater_number WireRepeaterType.repeated_5)
        ∷ ("Repeated10%Penalty", repeater_number WireRepeaterType.repeated_10)
        ∷ ("Repeated20%Penalty", repeater_number WireRepeaterType.repeated_20)
        ∷ ("Repeated30%Penalty", repeater_number WireRepeaterType.repeated_30)
        ∷ ("Repeated40%Penalty", repeater_number WireRepeaterType.repeated_40)
        ∷ ("Repeated50%Penalty", repeater_number WireRepeaterType.repeated_50)
        ∷ [])
      (repeater_number WireRepeaterType.repeated_none)

abbrev pub routing_mode_of : String → RoutingMode
routing_mode_of tmp = choose tmp (("H-tree", RoutingMode.h_tree) ∷ []) RoutingMode.non_h_tree

abbrev pub yes : String → ℕ
yes tmp = choose tmp (("Yes", 1) ∷ []) 0

abbrev pub is_yes : String → Bool
is_yes tmp = choose tmp (("Yes", true) ∷ []) false

abbrev pub is_true : String → Bool
is_true tmp = choose tmp (("true", true) ∷ []) false

abbrev pub buffer_level : String → ℕ
buffer_level tmp = choose tmp (("latency", 0) ∷ ("area", 2) ∷ []) 1
