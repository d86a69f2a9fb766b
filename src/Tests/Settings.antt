-- ===== src/Tests/Settings.antt =====
-- The checks on the default settings.
use nvsim.Shared.{◌≡◌, refl, ◌↔◌, true, false, not, ◌&&◌, ◌||◌, ltb, PowerOfTwo, some, arith}
use nvsim.Types.{MemCellType, DeviceRoadmap}
use nvsim.Double.Tenths.{Tenths, tenths}
use nvsim.Input.{InputParameter}
use nvsim.Input.Defaults.{new_input_parameter}
use nvsim.Checks.{bit_and, is_pow2, apply_constraint, is_cam, is_cache, is_h_tree, is_unsupported}
use nvsim.Checks.PowerTest.{is_pow2_iff, apply_constraint-passed}

is_pow2_iff_example : (is_pow2 24 ≡ true) ↔ PowerOfTwo 24
is_pow2_iff_example = is_pow2_iff 24 (omega arith)

abbrev settings : InputParameter Tenths
settings = record (new_input_parameter ⦃d = tenths⦄ 0 0 DeviceRoadmap.hp 0) { associativity = 8 }

settings_pass : apply_constraint MemCellType.sram settings ≡ some settings
unfolding apply_constraint new_input_parameter is_pow2 bit_and
settings_pass = refl

apply_constraint-passed_example :
    (is_cam settings.design_target ≡ false)
    × (is_unsupported MemCellType.sram ≡ false)
    × (is_h_tree settings.routing_mode && not settings.internal_sensing ≡ false)
    × PowerOfTwo settings.associativity
    × ((is_cache settings.design_target || ltb settings.associativity 2) ≡ true)
apply_constraint-passed_example =
    apply_constraint-passed MemCellType.sram settings settings (omega arith) settings_pass
