-- ===== src/Circuit/BasicDecoder.antt =====
-- BasicDecoder.h and BasicDecoder.cpp: a decoder of one, two or three address bits.
use nvsim.Shared.{ℕ, zero, suc, ◌==◌, Bool, true, false, if◌then◌else◌, Option, some, ◌>>=◌}
use nvsim.Types.{BufferDesignTarget}
use nvsim.Double.{Double, ◌⊕◌, ◌⊗◌, whole, max_d}
use nvsim.Formula.{
  GateType, Gate, nmos, calculate_gate_area, calculate_gate_cap, calculate_gate_capacitance,
  calculate_gate_leakage, calculate_on_resistance,
}
use nvsim.FunctionUnit.{FunctionUnit, with_area, with_latency, with_power}
use nvsim.Globals.{Globals, region_height, transistor_height}
use nvsim.Driver.Widths
use nvsim.Driver.Widths.{OutputDriver, DriverRequest}
use nvsim.Driver.Figures
use nvsim.Driver.Figures.{gate_delay}
use nvsim.Circuit.RowDecoder.{nand_of, pmos_width}

pub record SmallDecoder (D : Type 0) : Type 0 where
  pub figures : FunctionUnit D
  pub initialized : Bool
  pub output_driver : OutputDriver D
  pub num_nand_input : ℕ
  pub num_nand_gate : ℕ
  pub cap_load : D
  pub res_load : D
  pub width_nand_n : D
  pub width_nand_p : D
  pub cap_nand_input : D
  pub cap_nand_output : D
  pub ramp_input : D
  pub ramp_output : D

-- One address bit takes no gate.
unfoldable pub inputs_for : ℕ → ℕ
inputs_for num_address_bit = if num_address_bit == 1 then 0 else num_address_bit

-- Four gates of two inputs, eight of any other number.
unfoldable pub gates_for : ℕ → ℕ
gates_for zero = 0
gates_for (suc n) = if suc n == 2 then 4 else 8

module _ {D : Type 0} ⦃d : Double D⦄ (g : Globals D) where
  abbrev driver_request : ℕ → D → D → DriverRequest D
  driver_request inputs cap_load res_load = record {
    logic_effort = (nand_of g inputs).1;
    input_cap =
        calculate_gate_cap (nand_of g inputs).0 g.tech ⊕ calculate_gate_cap (pmos_width g) g.tech;
    output_cap = cap_load;
    output_res = res_load;
    inv = true;
    area_optimization_level = BufferDesignTarget.latency_first;
    min_driver_current = whole 0;
  }

  -- Without a gate its widths stay as they were.
  abbrev gate_width : ℕ → D → D → D
  gate_width zero old new = old
  gate_width (suc n) old new = new

  unfoldable pub initialize : ℕ → D → D → SmallDecoder D → Option (SmallDecoder D)
  initialize num_address_bit cap_load res_load s =
      let inputs = inputs_for num_address_bit in
      Widths.initialize g (driver_request inputs cap_load res_load) s.output_driver >>= (λ driver.
        some (record s {
          initialized = true;
          output_driver = driver;
          num_nand_input = inputs;
          num_nand_gate = gates_for inputs;
          cap_load = cap_load;
          res_load = res_load;
          width_nand_n = gate_width inputs s.width_nand_n (nand_of g inputs).0;
          width_nand_p = gate_width inputs s.width_nand_p (pmos_width g);
        }))

  abbrev nand : SmallDecoder D → D → Gate D
  nand s height = record {
    gate_type = GateType.nand;
    num_input = s.num_nand_input;
    width_nmos = s.width_nand_n;
    width_pmos = s.width_nand_p;
    height_transistor_region = height;
  }

  abbrev area_of : SmallDecoder D → OutputDriver D → ℕ → FunctionUnit D
  area_of s driver zero =
      let height = whole 2 ⊗ driver.figures.height in
      with_area height driver.figures.width (height ⊗ driver.figures.width) s.figures
  area_of s driver (suc n) =
      let gate = calculate_gate_area (nand s (region_height g)) g.tech in
      let height = max_d gate.height driver.figures.height ⊗ whole s.num_nand_gate in
      let width = gate.width ⊕ driver.figures.width in
      with_area height width (height ⊗ width) s.figures

  unfoldable pub calculate_area : SmallDecoder D → Option (SmallDecoder D)
  calculate_area s = elim s.initialized [
    | false ↦ some s
    | true ↦ do
      driver ← Figures.calculate_area g s.output_driver
      some (record s { output_driver = driver; figures = area_of s driver s.num_nand_input })
  ]

  abbrev rc_of : SmallDecoder D → OutputDriver D → ℕ → Option (SmallDecoder D)
  rc_of s driver zero = some (record s { output_driver = driver })
  rc_of s driver (suc n) = do
    c ← calculate_gate_capacitance (nand s (transistor_height g)) g.tech
    some (record s {
      output_driver = driver;
      cap_nand_input = c.cap_input;
      cap_nand_output = c.cap_output;
    })

  unfoldable pub calculate_rc : SmallDecoder D → Option (SmallDecoder D)
  calculate_rc s = elim s.initialized [
    | false ↦ some s
    | true ↦ do driver ← Figures.calculate_rc g s.output_driver; rc_of s driver s.num_nand_input
  ]

  -- The delay of the gate, if there is one, and the ramp that it leaves.
  abbrev gate_step : D → SmallDecoder D → ℕ → Option (D × D)
  gate_step ramp s zero = some (whole 0, ramp)
  gate_step ramp s (suc n) = do
    res ← calculate_on_resistance s.width_nand_n nmos g.input.temperature g.tech
    let res_pull_down = res ⊗ whole s.num_nand_input
    some (
        gate_delay g res_pull_down s.width_nand_n nmos
          (res_pull_down ⊗ (s.cap_nand_output ⊕ s.output_driver.cap_input 0)) ramp)

  abbrev sum_latency : ℕ → D → D → D
  sum_latency zero gate driver = driver
  sum_latency (suc n) gate driver = gate ⊕ driver

  unfoldable pub calculate_latency : D → SmallDecoder D → Option (SmallDecoder D)
  calculate_latency ramp s = elim s.initialized [
    | false ↦ some s
    | true ↦ do
      gate ← gate_step ramp s s.num_nand_input
      driver ← Figures.calculate_latency g gate.1 s.output_driver
      let latency = sum_latency s.num_nand_input gate.0 driver.figures.read_latency
      some (record s {
        output_driver = driver;
        figures = with_latency latency latency s.figures;
        ramp_input = ramp;
        ramp_output = driver.ramp_output;
      })
  ]

  abbrev power_of : SmallDecoder D → OutputDriver D → ℕ → Option (SmallDecoder D)
  power_of s driver zero =
      let energy =
        (driver.cap_input 0 ⊕ driver.cap_output 0) ⊗ g.tech.vdd ⊗ g.tech.vdd
        ⊕ driver.figures.read_dynamic_energy in
      some (record s {
        output_driver = driver;
        figures =
            with_power (energy ⊗ whole 1) (energy ⊗ whole 1) (whole 2 ⊗ driver.figures.leakage)
              s.figures;
      })
  power_of s driver (suc n) = do
    leakage ← calculate_gate_leakage (nand s (whole 0)) g.input.temperature g.tech
    let energy =
        (s.cap_nand_output ⊕ driver.cap_input 0) ⊗ g.tech.vdd ⊗ g.tech.vdd
        ⊕ driver.figures.read_dynamic_energy
    some (record s {
      output_driver = driver;
      figures =
          with_power (energy ⊗ whole 1) (energy ⊗ whole 1)
            ((leakage ⊗ g.tech.vdd ⊕ driver.figures.leakage) ⊗ whole s.num_nand_gate) s.figures;
    })

  unfoldable pub calculate_power : SmallDecoder D → Option (SmallDecoder D)
  calculate_power s = elim s.initialized [
    | false ↦ some s
    | true ↦ do
      driver ← Figures.calculate_power g s.output_driver
      power_of s driver s.num_nand_input
  ]
