-- ===== src/Circuit/RowDecoder.antt =====
-- RowDecoder.h and RowDecoder.cpp: the last stage of a decoder, one gate and driver for each row.
use nvsim.Shared.{ℕ, zero, suc, leb, ◌==◌, Bool, true, false, if◌then◌else◌, Option, some, ◌>>=◌}
use nvsim.Types.{BufferDesignTarget}
use nvsim.Double.{Double, ◌⊕◌, ◌⊗◌, ◌⊘◌, whole, max_d}
use nvsim.Formula.{
  GateType, Gate, nmos, calculate_gate_area, calculate_gate_cap, calculate_gate_capacitance,
  calculate_gate_leakage, calculate_on_resistance,
}
use nvsim.FunctionUnit.{FunctionUnit, with_area, with_latency, with_power}
use nvsim.Globals.{Globals, region_height, transistor_height}
use nvsim.Driver.Widths
use nvsim.Driver.Widths.{OutputDriver, DriverRequest}
use nvsim.Driver.Figures
use nvsim.Driver.Figures.{gate_delay}

pub record Decoder (D : Type 0) : Type 0 where
  pub figures : FunctionUnit D
  pub initialized : Bool
  pub is_invalid : Bool
  pub output_driver : OutputDriver D
  pub num_row : ℕ
  pub multiple_row_per_set : Bool
  pub num_nand_input : ℕ
  pub cap_load : D
  pub res_load : D
  pub area_optimization_level : BufferDesignTarget
  pub min_driver_current : D
  pub width_nand_n : D
  pub width_nand_p : D
  pub cap_nand_input : D
  pub cap_nand_output : D
  pub ramp_input : D
  pub ramp_output : D

-- The arguments of Initialize.
pub record DecoderRequest (D : Type 0) : Type 0 where
  pub num_row : ℕ
  pub cap_load : D
  pub res_load : D
  pub multiple_row_per_set : Bool
  pub area_optimization_level : BufferDesignTarget
  pub min_driver_current : D

-- Up to 8 rows the outputs of the predecoder are used directly; the select of a way is one more input.
unfoldable pub nand_inputs : ℕ → Bool → ℕ
nand_inputs num_row multiple_row_per_set =
    if leb num_row 8
    then (if multiple_row_per_set then 2 else 0)
    else (if multiple_row_per_set then 3 else 2)

module _ {D : Type 0} ⦃d : Double D⦄ (g : Globals D) where
  -- `MIN_NMOS_SIZE * tech->featureSize` times `n`, and the PMOS width of a gate.
  abbrev times_min : ℕ → D
  times_min n = whole n ⊗ d.decimal 15 1 ⊗ g.tech.feature_size

  abbrev pub pmos_width : D
  pmos_width = g.tech.pn_size_ratio ⊗ d.decimal 15 1 ⊗ g.tech.feature_size

  -- `(n + pnSizeRatio) / (1 + pnSizeRatio)`.
  abbrev effort : ℕ → D
  effort n = (whole n ⊕ g.tech.pn_size_ratio) ⊘ (whole 1 ⊕ g.tech.pn_size_ratio)

  -- The NMOS width of the gate and its logical effort: an inverter, a NAND of two or of three inputs.
  unfoldable pub nand_of : ℕ → D × D
  nand_of zero = (d.decimal 15 1 ⊗ g.tech.feature_size, whole 1)
  nand_of (suc n) = if suc n == 2 then (times_min 2, effort 2) else (times_min 3, effort 3)

  abbrev pub driver_request : DecoderRequest D → D × D → DriverRequest D
  driver_request r gate = record {
    logic_effort = gate.1;
    input_cap = calculate_gate_cap gate.0 g.tech ⊕ calculate_gate_cap pmos_width g.tech;
    output_cap = r.cap_load;
    output_res = r.res_load;
    inv = true;
    area_optimization_level = r.area_optimization_level;
    min_driver_current = r.min_driver_current;
  }

  -- The decoder with its driver: an invalid driver makes the decoder invalid and not initialized.
  abbrev pub with_driver : DecoderRequest D → Decoder D → OutputDriver D → Decoder D
  with_driver r s driver =
      let n = nand_inputs r.num_row r.multiple_row_per_set in
      record s {
        output_driver = driver;
        num_row = r.num_row;
        cap_load = r.cap_load;
        res_load = r.res_load;
        multiple_row_per_set = r.multiple_row_per_set;
        area_optimization_level = r.area_optimization_level;
        min_driver_current = r.min_driver_current;
        num_nand_input = n;
        width_nand_n = (nand_of n).0;
        width_nand_p = pmos_width;
        is_invalid = if driver.is_invalid then true else s.is_invalid;
        initialized = if driver.is_invalid then s.initialized else true;
      }

  unfoldable pub initialize : DecoderRequest D → Decoder D → Option (Decoder D)
  initialize r s = do
    driver ←
        Widths.initialize g
          (driver_request r (nand_of (nand_inputs r.num_row r.multiple_row_per_set)))
          s.output_driver
    some (with_driver r s driver)

  abbrev nand : Decoder D → D → Gate D
  nand s height = record {
    gate_type = GateType.nand;
    num_input = s.num_nand_input;
    width_nmos = s.width_nand_n;
    width_pmos = s.width_nand_p;
    height_transistor_region = height;
  }

  abbrev area_of : Decoder D → OutputDriver D → ℕ → FunctionUnit D
  area_of s driver zero =
      let height = driver.figures.height ⊗ whole s.num_row in
      with_area height driver.figures.width (height ⊗ driver.figures.width) s.figures
  area_of s driver (suc n) =
      let gate = calculate_gate_area (nand s (region_height g)) g.tech in
      let height = max_d gate.height driver.figures.height ⊗ whole s.num_row in
      let width = gate.width ⊕ driver.figures.width in
      with_area height width (height ⊗ width) s.figures

  unfoldable pub calculate_area : Decoder D → Option (Decoder D)
  calculate_area s = elim s.initialized [
    | false ↦ some s
    | true ↦ do
      driver ← Figures.calculate_area g s.output_driver
      some (record s { output_driver = driver; figures = area_of s driver s.num_nand_input })
  ]

  abbrev rc_of : Decoder D → OutputDriver D → ℕ → Option (Decoder D)
  rc_of s driver zero =
      some
        (record s { output_driver = driver; cap_nand_input = whole 0; cap_nand_output = whole 0 })
  rc_of s driver (suc n) = do
    c ← calculate_gate_capacitance (nand s (transistor_height g)) g.tech
    some (record s {
      output_driver = driver;
      cap_nand_input = c.cap_input;
      cap_nand_output = c.cap_output;
    })

  unfoldable pub calculate_rc : Decoder D → Option (Decoder D)
  calculate_rc s = elim s.initialized [
    | false ↦ some s
    | true ↦ do driver ← Figures.calculate_rc g s.output_driver; rc_of s driver s.num_nand_input
  ]

  abbrev latency_of : D → Decoder D → ℕ → Option (Decoder D)
  latency_of ramp s zero = do
    driver ← Figures.calculate_latency g ramp s.output_driver
    some (record s {
      output_driver = driver;
      figures = with_latency driver.figures.read_latency driver.figures.read_latency s.figures;
      ramp_output = driver.ramp_output;
    })
  latency_of ramp s (suc n) = do
    res ← calculate_on_resistance s.width_nand_n nmos g.input.temperature g.tech
    let res_pull_down = res ⊗ whole s.num_nand_input
    let gate =
        gate_delay g res_pull_down s.width_nand_n nmos
          (res_pull_down ⊗ (s.cap_nand_output ⊕ s.output_driver.cap_input 0)) ramp
    driver ← Figures.calculate_latency g gate.1 s.output_driver
    let latency = gate.0 ⊕ driver.figures.read_latency
    some (record s {
      output_driver = driver;
      figures = with_latency latency latency s.figures;
      ramp_input = ramp;
      ramp_output = driver.ramp_output;
    })

  unfoldable pub calculate_latency : D → Decoder D → Option (Decoder D)
  calculate_latency ramp s = elim s.initialized [
    | false ↦ some s
    | true ↦ latency_of ramp s s.num_nand_input
  ]

  abbrev power_of : Decoder D → OutputDriver D → ℕ → Option (Decoder D)
  power_of s driver zero = some (record s {
    output_driver = driver;
    figures =
        with_power driver.figures.read_dynamic_energy driver.figures.read_dynamic_energy
          (driver.figures.leakage ⊗ whole s.num_row) s.figures;
  })
  power_of s driver (suc n) = do
    leakage ← calculate_gate_leakage (nand s (whole 0)) g.input.temperature g.tech
    let energy =
        (s.cap_nand_output ⊕ driver.cap_input 0) ⊗ g.tech.vdd ⊗ g.tech.vdd
        ⊕ driver.figures.read_dynamic_energy
    some (record s {
      output_driver = driver;
      figures =
          with_power (energy ⊗ whole 1) (energy ⊗ whole 1)
            ((driver.figures.leakage ⊕ leakage ⊗ g.tech.vdd) ⊗ whole s.num_row) s.figures;
    })

  unfoldable pub calculate_power : Decoder D → Option (Decoder D)
  calculate_power s = elim s.initialized [
    | false ↦ some s
    | true ↦ do
      driver ← Figures.calculate_power g s.output_driver
      power_of s driver s.num_nand_input
  ]
