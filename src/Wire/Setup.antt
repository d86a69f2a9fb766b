-- ===== src/Wire/Setup.antt =====
-- Wire.cpp: Wire::Initialize.
use nvsim.Shared.{
  ℕ, ◌^◌, Bool, true, false, ◌&&◌, leb, if◌then◌else◌, pos, minus, Option, none, some, ◌>>=◌,
}
use nvsim.Types.{WireType, WireRepeaterType}
use nvsim.Double.{Double, ◌⊕◌, ◌⊖◌, ◌⊗◌, ◌⊘◌, ◌≺◌, whole}
use nvsim.Formula.{
  WireShape, calculate_wire_resistance, calculate_wire_capacitance, calculate_gate_area, inverter,
}
use nvsim.Globals.{Globals}
use nvsim.Wire.State.{Wire, WireTable}
use nvsim.Wire.Fine.{wire_22, wire_32, wire_45}
use nvsim.Wire.Middle.{wire_65, wire_90}
use nvsim.Wire.Coarse.{wire_120, wire_200}
use nvsim.Wire.Repeater.{find_optimal_repeater, find_penalized_repeater}

pub record WireRequest : Type 0 where
  pub feature_size_in_nano : ℕ
  pub wire_type : WireType
  pub wire_repeater_type : WireRepeaterType
  pub temperature : ℕ
  pub is_low_swing : Bool

unfoldable pub is_repeated : WireRepeaterType → Bool
is_repeated WireRepeaterType.repeated_none = false
is_repeated _ = true

module _ {D : Type 0} ⦃d : Double D⦄ where
  -- The feature size of the branch, in nm, and its constants. Over 200 nm no branch sets them: `none`.
  unfoldable pub wire_table : ℕ → WireType → Option (D × WireTable D)
  wire_table size wire_type =
      if leb size 22
      then some (d.decimal 22 9, wire_22 wire_type (d.decimal 22 9))
      else if leb size 32
      then some (d.decimal 32 9, wire_32 wire_type (d.decimal 32 9))
      else if leb size 45
      then some (d.decimal 45 9, wire_45 wire_type (d.decimal 45 9))
      else if leb size 65
      then some (d.decimal 65 9, wire_65 wire_type (d.decimal 65 9))
      else if leb size 90
      then some (d.decimal 90 9, wire_90 wire_type (d.decimal 90 9))
      else if leb size 120
      then some (d.decimal 120 9, wire_120 wire_type (d.decimal 120 9))
      else if leb size 200
      then some (d.decimal 200 9, wire_200 wire_type (d.decimal 200 9))
      else none

  abbrev heated : D → ℕ → D
  heated resistivity temperature =
      resistivity ⊗ (whole 1 ⊕ d.decimal 39 4 ⊗ d.of_int (minus (pos temperature) 293))

  abbrev surroundings : WireTable D → D → D → D → WireShape D
  surroundings t width thickness spacing = record {
    wire_width = width;
    wire_thickness = thickness;
    wire_spacing = spacing;
    ild_thickness = t.ild_thickness;
    miller_value = d.decimal 15 1;
    horizontal_dielectric = t.horizontal_dielectric;
    vertical_dielectric = d.decimal 39 1;
    fringe_cap = d.decimal 115 12;
  }

  -- The members that do not depend on repeaters.
  unfoldable pub bare_wire : WireRequest → D → WireTable D → Wire D → Wire D
  bare_wire r feature_size t w =
      let width = t.wire_pitch ⊘ whole 2 in
      let thickness = t.aspect_ratio ⊗ width in
      let spacing = t.wire_pitch ⊖ width in
      record w {
        initialized = false;
        feature_size_in_nano = r.feature_size_in_nano;
        feature_size = feature_size;
        wire_type = r.wire_type;
        wire_repeater_type = r.wire_repeater_type;
        temperature = r.temperature;
        is_low_swing = r.is_low_swing;
        barrier_thickness = t.barrier_thickness;
        horizontal_dielectric = t.horizontal_dielectric;
        wire_pitch = t.wire_pitch;
        aspect_ratio = t.aspect_ratio;
        ild_thickness = t.ild_thickness;
        wire_width = width;
        wire_thickness = thickness;
        wire_spacing = spacing;
        res_wire_per_unit =
            calculate_wire_resistance (heated t.copper_resistivity r.temperature) width thickness
              t.barrier_thickness (whole 0) (whole 1);
        cap_wire_per_unit =
            calculate_wire_capacitance (d.decimal 885 14) (surroundings t width thickness spacing);
      }

  -- The delay that a type of repeater gives away, where it gives away any.
  unfoldable pub penalty_of : WireRepeaterType → Option D
  penalty_of WireRepeaterType.repeated_none = none
  penalty_of WireRepeaterType.repeated_opt = none
  penalty_of WireRepeaterType.repeated_5 = some (d.decimal 5 2)
  penalty_of WireRepeaterType.repeated_10 = some (d.decimal 10 2)
  penalty_of WireRepeaterType.repeated_20 = some (d.decimal 20 2)
  penalty_of WireRepeaterType.repeated_30 = some (d.decimal 30 2)
  penalty_of WireRepeaterType.repeated_40 = some (d.decimal 40 2)
  penalty_of WireRepeaterType.repeated_50 = some (d.decimal 50 2)

  -- The longer side of a repeater is its width.
  abbrev with_repeater_area : Globals D → Wire D → Wire D
  with_repeater_area g w =
      let size = w.repeater_size ⊗ d.decimal 15 1 ⊗ g.tech.feature_size in
      let a =
        calculate_gate_area (inverter size (size ⊗ g.tech.pn_size_ratio) (d.decimal (10 ^ 41) 0))
          g.tech in
      let width = if a.width ≺ a.height then a.height else a.width in
      record w {
        repeater_width = width;
        repeater_height = if a.width ≺ a.height then a.width else a.height;
        repeated_wire_pitch = w.wire_pitch ⊕ width;
      }

  -- With fuel for the two loops of the search.
  unfoldable pub with_repeaters : ℕ → ℕ → Globals D → Wire D → Option (Wire D)
  with_repeaters sizes spacings g w = do
    best ← find_optimal_repeater g w
    chosen ← elim (penalty_of w.wire_repeater_type) [
      | none ↦ some best
      | some penalty ↦ find_penalized_repeater g sizes spacings penalty best
    ]
    some (with_repeater_area g chosen)

  abbrev ready : Wire D → Wire D
  ready w = record w { initialized = true }

  -- A low swing of a wire with repeaters makes the source exit.
  unfoldable pub initialize : ℕ → ℕ → Globals D → WireRequest → Wire D → Option (Wire D)
  initialize sizes spacings g r w = elim (is_repeated r.wire_repeater_type && r.is_low_swing) [
    | true ↦ none
    | false ↦ do
      t ← wire_table r.feature_size_in_nano r.wire_type
      let bare = bare_wire r t.0 t.1 w
      elim (is_repeated r.wire_repeater_type) [
        | false ↦ some (ready bare)
        | true ↦ do repeated ← with_repeaters sizes spacings g bare; some (ready repeated)
      ]
  ]
