-- ===== src/Circuit/Mux.antt =====
-- Mux.h and Mux.cpp: a multiplexer of pass transistors.
use nvsim.Shared.{ℕ, ◌*◌, Bool, true, false, ◌&&◌, ltb, if◌then◌else◌, Option, some, ◌>>=◌}
use nvsim.Types.{MemCellType}
use nvsim.Double.{Double, ◌⊕◌, ◌⊖◌, ◌⊗◌, ◌⊘◌, ◌≺◌, whole, max_d}
use nvsim.Formula.{nmos, single, calculate_gate_area, calculate_drain_cap, calculate_on_resistance}
use nvsim.FunctionUnit.{FunctionUnit, with_area, with_latency, with_power}
use nvsim.Globals.{Globals, on_current, max_nmos, region_height}

pub record Multiplexer (D : Type 0) : Type 0 where
  pub figures : FunctionUnit D
  pub initialized : Bool
  pub num_input : ℕ
  pub num_mux : ℕ
  pub cap_load : D
  pub cap_input_next_stage : D
  pub min_driver_current : D
  pub cap_output : D
  pub width_nmos_pass_transistor : D
  pub res_nmos_pass_transistor : D
  pub cap_nmos_pass_transistor : D
  pub cap_for_previous_delay_calculation : D
  pub cap_for_previous_power_calculation : D
  pub ramp_input : D
  pub ramp_output : D

-- The arguments of Initialize.
pub record MuxRequest (D : Type 0) : Type 0 where
  pub num_input : ℕ
  pub num_mux : ℕ
  pub cap_load : D
  pub cap_input_next_stage : D
  pub min_driver_current : D

abbrev is_resistive : MemCellType → Bool
is_resistive MemCellType.mram = true
is_resistive MemCellType.pcram = true
is_resistive MemCellType.memristor = true
is_resistive _ = false

-- `(numInput > 1) && (numMux > 0)`.
abbrev pub selects : ℕ → ℕ → Bool
selects num_input num_mux = ltb 1 num_input && ltb 0 num_mux

module _ {D : Type 0} ⦃d : Double D⦄ (g : Globals D) where
  -- `6 * MIN_NMOS_SIZE * tech->featureSize`.
  abbrev six_min : D
  six_min = whole 6 ⊗ d.decimal 15 1 ⊗ g.tech.feature_size

  -- The width that keeps the drop over the transistor small, but not above the greatest one.
  abbrev drop_width : D → D
  drop_width res =
      let width = res ⊗ g.tech.feature_size ⊘ (g.cell.resistance_on ⊗ d.decimal 2 1) in
      if max_nmos g ≺ width then max_nmos g else width

  unfoldable pub pass_width : D → Option D
  pass_width min_driver_current = do
    current ← on_current g
    let least = min_driver_current ⊘ current
    elim (is_resistive g.cell.mem_cell_type) [
      | false ↦ some (max_d six_min least)
      | true ↦ do
        res ← calculate_on_resistance g.tech.feature_size nmos g.input.temperature g.tech
        some (max_d (max_d (drop_width res) least) six_min)
    ]

  abbrev requested : MuxRequest D → Multiplexer D → Multiplexer D
  requested r s = record s {
    initialized = true;
    num_input = r.num_input;
    num_mux = r.num_mux;
    cap_load = r.cap_load;
    cap_input_next_stage = r.cap_input_next_stage;
    min_driver_current = r.min_driver_current;
  }

  unfoldable pub initialize : MuxRequest D → Multiplexer D → Option (Multiplexer D)
  initialize r s = elim (selects r.num_input r.num_mux) [
    | false ↦ some (requested r s)
    | true ↦ do
      width ← pass_width r.min_driver_current
      some (record (requested r s) { width_nmos_pass_transistor = width })
  ]

  abbrev area_of : Multiplexer D → FunctionUnit D
  area_of s =
      let a =
        calculate_gate_area (single nmos s.width_nmos_pass_transistor (region_height g)) g.tech in
      let width = whole (s.num_mux * s.num_input) ⊗ a.width in
      with_area a.height width (width ⊗ a.height) s.figures

  unfoldable pub calculate_area : Multiplexer D → Multiplexer D
  calculate_area s = elim s.initialized [
    | false ↦ s
    | true ↦ elim (selects s.num_input s.num_mux) [
      | false ↦ record s { figures = with_area (whole 0) (whole 0) (whole 0) s.figures }
      | true ↦ record s { figures = area_of s }
    ]
  ]

  unfoldable pub calculate_rc : Multiplexer D → Option (Multiplexer D)
  calculate_rc s = elim (s.initialized && selects s.num_input s.num_mux) [
    | false ↦ some s
    | true ↦ do
      cap ← calculate_drain_cap s.width_nmos_pass_transistor nmos (region_height g) g.tech
      res ← calculate_on_resistance s.width_nmos_pass_transistor nmos g.input.temperature g.tech
      some (record s {
        cap_nmos_pass_transistor = cap;
        cap_for_previous_power_calculation = cap;
        cap_output = whole s.num_input ⊗ cap;
        cap_for_previous_delay_calculation = whole s.num_input ⊗ cap ⊕ cap ⊕ s.cap_load;
        res_nmos_pass_transistor = res;
      })
  ]

  unfoldable pub calculate_latency : D → Multiplexer D → Multiplexer D
  calculate_latency ramp s = elim s.initialized [
    | false ↦ s
    | true ↦ elim (selects s.num_input s.num_mux) [
      | false ↦ record s { figures = with_latency (whole 0) (whole 0) s.figures }
      | true ↦
          let latency =
            d.decimal 23 1 ⊗ (s.res_nmos_pass_transistor ⊗ (s.cap_output ⊕ s.cap_load)) in
          record s { ramp_input = ramp; figures = with_latency latency latency s.figures }
    ]
  ]

  abbrev energy_of : Multiplexer D → D
  energy_of s =
      (s.cap_output ⊕ s.cap_input_next_stage)
      ⊗ g.tech.vdd
      ⊗ (g.tech.vdd ⊖ g.tech.vth)
      ⊗ whole s.num_mux

  unfoldable pub calculate_power : Multiplexer D → Multiplexer D
  calculate_power s = elim s.initialized [
    | false ↦ s
    | true ↦ elim (selects s.num_input s.num_mux) [
      | false ↦ record s { figures = with_power (whole 0) (whole 0) (whole 0) s.figures }
      | true ↦ record s { figures = with_power (energy_of s) (energy_of s) (whole 0) s.figures }
    ]
  ]
