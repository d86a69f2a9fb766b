-- ===== src/Tests/Circuits.antt =====
-- A driver, a row decoder, a precharger, a wire and a subarray at small numbers.
use nvsim.Shared.{Defined, ◌≡◌, refl, true, false, Option, none, some}
use nvsim.Types.{DeviceRoadmap, BufferDesignTarget, WireType, WireRepeaterType}
use nvsim.Double.Tenths.{Tenths, tenths, tenths-IsStrictOrder}
use nvsim.Input.Defaults.{new_input_parameter}
use nvsim.Globals.{Globals, on_current}
use nvsim.FunctionUnit.{FunctionUnit}
use nvsim.Formula.{temp_index, calculate_gate_cap, calculate_gate_capacitance, max_widths, fold}
use nvsim.Wire.State.{Wire}
use nvsim.Driver.{total_effort, ideal_stages, latency_chain}
use nvsim.Driver.Widths.{
  OutputDriver, construct, DriverRequest, min_driver_width, taper, last_width, trade_off, stages_of,
  latency_first_stages, initialize_from, initialize,
}
use nvsim.Driver.Strength.{IsStrong, initialize-IsStrong}
use nvsim.Driver.Figures
use nvsim.Driver.Figures.{stages_rc}
use nvsim.Driver.Defined.{initialize-Defined}
use nvsim.Driver.Flags.{Settled, IsIdle, initialize-IsIdle}
use nvsim.Tests.Files.{zero_cell}
use nvsim.Tests.Processes.{technology}

abbrev pub wire : Wire Tenths
wire = record {
  initialized = true;
  feature_size_in_nano = 90;
  feature_size = 10;
  wire_type = WireType.local_aggressive;
  wire_repeater_type = WireRepeaterType.repeated_none;
  temperature = 300;
  is_low_swing = false;
  barrier_thickness = 10;
  horizontal_dielectric = 10;
  wire_pitch = 10;
  aspect_ratio = 10;
  ild_thickness = 10;
  wire_width = 10;
  wire_thickness = 10;
  wire_spacing = 10;
  repeater_size = 25;
  repeater_spacing = 10;
  repeater_height = 10;
  repeater_width = 10;
  repeated_wire_pitch = 10;
  res_wire_per_unit = 10;
  cap_wire_per_unit = 10;
}

abbrev pub globals : Globals Tenths
globals = record {
  input = record (new_input_parameter ⦃d = tenths⦄ 0 0 DeviceRoadmap.hp 0) {
    temperature = 300;
    max_nmos_size = 1000;
  };
  tech = technology;
  cell = zero_cell;
  local_wire = wire;
}

abbrev pub no_figures : FunctionUnit Tenths
no_figures = record {
  height = 0;
  width = 0;
  area = 0;
  read_latency = 0;
  write_latency = 0;
  read_dynamic_energy = 0;
  write_dynamic_energy = 0;
  leakage = 0;
  set_latency = 0;
  reset_latency = 0;
  set_dynamic_energy = 0;
  reset_dynamic_energy = 0;
  cell_read_energy = 0;
  cell_set_energy = 0;
  cell_reset_energy = 0;
}

abbrev pub new_driver : OutputDriver Tenths
new_driver = construct (record {
  figures = no_figures;
  initialized = false;
  is_invalid = false;
  logic_effort = 0;
  input_cap = 0;
  output_cap = 0;
  output_res = 0;
  inv = true;
  num_stage = 0;
  area_optimization_level = BufferDesignTarget.latency_first;
  min_driver_current = 0;
  width_nmos = λ i. 0;
  width_pmos = λ i. 0;
  cap_input = λ i. 0;
  cap_output = λ i. 0;
  ramp_input = 0;
  ramp_output = 0;
})

abbrev driver_request : DriverRequest Tenths
driver_request = record {
  logic_effort = 10;
  input_cap = 10;
  output_cap = 100;
  output_res = 0;
  inv = true;
  area_optimization_level = BufferDesignTarget.latency_first;
  min_driver_current = 0;
}

abbrev pub result_or {ℓ} : {A : Type ℓ} → A → Option A → A
result_or a none = a
result_or a (some b) = b

abbrev pub driver : OutputDriver Tenths
driver = result_or new_driver (initialize globals driver_request new_driver)

driver_made : initialize globals driver_request new_driver ≡ some driver
unfolding initialize initialize_from min_driver_width on_current temp_index latency_first_stages
    stages_of total_effort ideal_stages latency_chain last_width calculate_gate_cap trade_off taper
driver_made = refl

driver_valid : driver.is_invalid ≡ false
unfolding initialize initialize_from min_driver_width on_current temp_index latency_first_stages
    stages_of total_effort ideal_stages latency_chain last_width calculate_gate_cap trade_off taper
driver_valid = refl

least : min_driver_width globals driver_request ≡ some 15
unfolding min_driver_width on_current temp_index new_input_parameter
least = refl

initialize-IsStrong_example : IsStrong globals tenths-IsStrictOrder 15 driver
initialize-IsStrong_example =
    initialize-IsStrong globals tenths-IsStrictOrder driver_request new_driver driver 15 least
      driver_made driver_valid

initialize-IsIdle_example :
    Settled globals driver × (driver.is_invalid ≡ true → IsIdle globals driver)
initialize-IsIdle_example =
    initialize-IsIdle globals driver_request new_driver driver driver_made (refl, refl)

abbrev loaded : OutputDriver Tenths
loaded = result_or driver (Figures.calculate_rc globals driver)

rc_made : Figures.calculate_rc globals driver ≡ some loaded
unfolding initialize initialize_from min_driver_width on_current temp_index latency_first_stages
    stages_of total_effort ideal_stages latency_chain last_width calculate_gate_cap trade_off taper
    Figures.calculate_rc stages_rc calculate_gate_capacitance max_widths fold
rc_made = refl

initialize-Defined_example :
    Defined (Figures.calculate_area globals driver)
    × ((ramp : Tenths) → Defined (Figures.calculate_latency globals ramp loaded))
    × Defined (Figures.calculate_power globals loaded)
initialize-Defined_example =
    initialize-Defined globals tenths-IsStrictOrder driver_request new_driver driver loaded
      driver_made rc_made
