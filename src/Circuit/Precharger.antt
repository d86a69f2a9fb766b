-- ===== src/Circuit/Precharger.antt =====
-- Precharger.h and Precharger.cpp: the prechargers of the columns.
use nvsim.Shared.{ℕ, Bool, true, false, Option, some, ◌>>=◌}
use nvsim.Types.{BufferDesignTarget}
use nvsim.Double.{Double, ◌⊕◌, ◌⊗◌, ◌⊘◌, whole, max_d}
use nvsim.Formula.{
  inverter, single, nmos, pmos, calculate_gate_area, calculate_gate_cap, calculate_drain_cap,
  calculate_gate_leakage, calculate_on_resistance,
}
use nvsim.FunctionUnit.{FunctionUnit, with_area, with_latency, with_power}
use nvsim.Globals.{Globals, min_nmos, region_height}
use nvsim.Driver.Widths
use nvsim.Driver.Widths.{OutputDriver, DriverRequest}
use nvsim.Driver.Figures
use nvsim.Driver.Figures.{gate_delay}

pub record Prechargers (D : Type 0) : Type 0 where
  pub figures : FunctionUnit D
  pub initialized : Bool
  pub output_driver : OutputDriver D
  pub voltage_precharge : D
  pub num_column : ℕ
  pub cap_bitline : D
  pub res_bitline : D
  pub cap_wire_load_per_column : D
  pub res_wire_load_per_column : D
  pub width_inv_nmos : D
  pub width_inv_pmos : D
  pub width_pmos_bitline_equal : D
  pub width_pmos_bitline_precharger : D
  pub cap_load_inv : D
  pub cap_output_bitline_precharger : D
  pub cap_load_per_column : D
  pub enable_latency : D
  pub ramp_input : D
  pub ramp_output : D

-- `rhs` assigned to the object. The precharge voltage and the widths of the inverter stay its own.
unfoldable pub assign : {D : Type 0} → Prechargers D → Prechargers D → Prechargers D
assign rhs s = record rhs {
  output_driver = Figures.assign rhs.output_driver s.output_driver;
  voltage_precharge = s.voltage_precharge;
  width_inv_nmos = s.width_inv_nmos;
  width_inv_pmos = s.width_inv_pmos;
}

-- The drains at one column: of the inverter's transistors and of the bitline's.
pub record Drains (D : Type 0) : Type 0 where
  pub inv_n : D
  pub inv_p : D
  pub precharger : D
  pub equal : D

module _ {D : Type 0} ⦃d : Double D⦄ (g : Globals D) where
  abbrev inv_pmos : D
  inv_pmos = min_nmos g ⊗ g.tech.pn_size_ratio

  abbrev precharger_width : D
  precharger_width = whole 6 ⊗ g.tech.feature_size

  unfoldable pub drains : Option (Drains D)
  drains = do
    inv_n ← calculate_drain_cap (min_nmos g) nmos (region_height g) g.tech
    inv_p ← calculate_drain_cap inv_pmos pmos (region_height g) g.tech
    precharger ← calculate_drain_cap precharger_width pmos (region_height g) g.tech
    equal ← calculate_drain_cap (min_nmos g) pmos (region_height g) g.tech
    some (record { inv_n = inv_n; inv_p = inv_p; precharger = precharger; equal = equal })

  abbrev cap_input_inv : D
  cap_input_inv = calculate_gate_cap (min_nmos g) g.tech ⊕ calculate_gate_cap inv_pmos g.tech

  abbrev wire_load : D → D
  wire_load per_unit = g.cell.width_in_feature_size ⊗ g.tech.feature_size ⊗ per_unit

  abbrev load_per_column : D
  load_per_column = cap_input_inv ⊕ wire_load g.local_wire.cap_wire_per_unit

  abbrev driver_request : ℕ → DriverRequest D
  driver_request num_column = record {
    logic_effort = whole 1;
    input_cap = cap_input_inv;
    output_cap = whole num_column ⊗ load_per_column;
    output_res = whole 0;
    inv = true;
    area_optimization_level = BufferDesignTarget.latency_first;
    min_driver_current = whole 0;
  }

  unfoldable pub initialize : D → ℕ → D → D → Prechargers D → Option (Prechargers D)
  initialize voltage num_column cap_bitline res_bitline s = do
    c ← drains
    driver ← Widths.initialize g (driver_request num_column) s.output_driver
    some (record s {
      initialized = true;
      output_driver = driver;
      voltage_precharge = voltage;
      num_column = num_column;
      cap_bitline = cap_bitline;
      res_bitline = res_bitline;
      cap_wire_load_per_column = wire_load g.local_wire.cap_wire_per_unit;
      res_wire_load_per_column = wire_load g.local_wire.res_wire_per_unit;
      width_inv_nmos = min_nmos g;
      width_inv_pmos = inv_pmos;
      width_pmos_bitline_equal = min_nmos g;
      width_pmos_bitline_precharger = precharger_width;
      cap_load_inv =
          calculate_gate_cap (min_nmos g) g.tech
          ⊕ whole 2 ⊗ calculate_gate_cap precharger_width g.tech
          ⊕ c.inv_n
          ⊕ c.inv_p;
      cap_output_bitline_precharger = c.precharger ⊕ c.equal;
      cap_load_per_column = load_per_column;
    })

  abbrev area_of : Prechargers D → OutputDriver D → FunctionUnit D
  area_of s driver =
      let pre =
        calculate_gate_area (single pmos s.width_pmos_bitline_precharger (region_height g))
          g.tech in
      let equal =
        calculate_gate_area (single pmos s.width_pmos_bitline_equal (region_height g)) g.tech in
      let inv =
        calculate_gate_area (inverter s.width_inv_nmos s.width_inv_pmos (region_height g)) g.tech in
      let width =
        max_d (max_d (whole 2 ⊗ pre.width ⊕ equal.width) inv.width ⊗ whole s.num_column)
          driver.figures.width in
      let height = max_d (max_d pre.height equal.height ⊕ inv.height) driver.figures.height in
      with_area height width (height ⊗ width) s.figures

  unfoldable pub calculate_area : Prechargers D → Option (Prechargers D)
  calculate_area s = elim s.initialized [
    | false ↦ some s
    | true ↦ do
      driver ← Figures.calculate_area g s.output_driver
      some (record s { output_driver = driver; figures = area_of s driver })
  ]

  unfoldable pub calculate_rc : Prechargers D → Option (Prechargers D)
  calculate_rc s = elim s.initialized [
    | false ↦ some s
    | true ↦ do
      driver ← Figures.calculate_rc g s.output_driver
      some (record s { output_driver = driver })
  ]

  unfoldable pub calculate_latency : D → Prechargers D → Option (Prechargers D)
  calculate_latency ramp s = elim s.initialized [
    | false ↦ some s
    | true ↦ do
      driver ← Figures.calculate_latency g ramp s.output_driver
      down ← calculate_on_resistance s.width_inv_nmos nmos g.input.temperature g.tech
      let enable =
          gate_delay g down s.width_inv_nmos nmos (down ⊗ s.cap_load_inv) driver.ramp_output
      up ← calculate_on_resistance s.width_pmos_bitline_precharger pmos g.input.temperature g.tech
      let tau =
          up ⊗ (s.cap_bitline ⊕ s.cap_output_bitline_precharger)
          ⊕ s.res_bitline ⊗ s.cap_bitline ⊘ whole 2
      let charge = gate_delay g up s.width_pmos_bitline_precharger pmos tau enable.1
      some (record s {
        output_driver = driver;
        ramp_input = ramp;
        enable_latency = driver.figures.read_latency ⊕ enable.0;
        figures = with_latency (whole 0 ⊕ charge.0) (whole 0 ⊕ charge.0) s.figures;
        ramp_output = charge.1;
      })
  ]

  unfoldable pub calculate_power : Prechargers D → Option (Prechargers D)
  calculate_power s = elim s.initialized [
    | false ↦ some s
    | true ↦ do
      driver ← Figures.calculate_power g s.output_driver
      inv ←
          calculate_gate_leakage (inverter s.width_inv_nmos s.width_inv_pmos (whole 0))
            g.input.temperature g.tech
      pre ←
          calculate_gate_leakage (single pmos s.width_pmos_bitline_precharger (whole 0))
            g.input.temperature g.tech
      let leakage =
          driver.figures.leakage
          ⊕ whole s.num_column ⊗ g.tech.vdd ⊗ inv
          ⊕ whole s.num_column ⊗ s.voltage_precharge ⊗ pre
      let energy =
          driver.figures.read_dynamic_energy
          ⊕ s.cap_load_inv ⊗ g.tech.vdd ⊗ g.tech.vdd ⊗ whole s.num_column
      some (record s {
        output_driver = driver;
        figures = with_power energy (whole 0) leakage s.figures;
      })
  ]
