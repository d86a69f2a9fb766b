-- ===== src/Wire/State.antt =====
-- Wire.h: the state of a wire, and the constants that Wire::Initialize takes from its tables.
use nvsim.Shared.{ℕ, Bool}
use nvsim.Types.{WireType, WireRepeaterType}
use nvsim.Double.{Double}

-- The pointer to a sense amplifier, which belongs to CalculateLatencyAndPower, is left out.
pub record Wire (D : Type 0) : Type 0 where
  pub initialized : Bool
  pub feature_size_in_nano : ℕ
  pub feature_size : D
  pub wire_type : WireType
  pub wire_repeater_type : WireRepeaterType
  pub temperature : ℕ
  pub is_low_swing : Bool
  pub barrier_thickness : D
  pub horizontal_dielectric : D
  pub wire_pitch : D
  pub aspect_ratio : D
  pub ild_thickness : D
  pub wire_width : D
  pub wire_thickness : D
  pub wire_spacing : D
  pub repeater_size : D
  pub repeater_spacing : D
  pub repeater_height : D
  pub repeater_width : D
  pub repeated_wire_pitch : D
  pub res_wire_per_unit : D
  pub cap_wire_per_unit : D

pub record WireTable (D : Type 0) : Type 0 where
  pub barrier_thickness : D
  pub horizontal_dielectric : D
  pub wire_pitch : D
  pub aspect_ratio : D
  pub ild_thickness : D
  pub copper_resistivity : D

module _ {D : Type 0} ⦃d : Double D⦄ where
  -- COPPER_RESISTIVITY.
  abbrev pub copper : D
  copper = d.decimal 22 9
