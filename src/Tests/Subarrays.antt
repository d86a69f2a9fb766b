-- ===== src/Tests/Subarrays.antt =====
-- Decoders, prechargers and a subarray at small numbers.
use nvsim.Shared.{◌≡◌, refl, true, false, ◌↔◌, some}
use nvsim.Types.{BufferDesignTarget, MemCellType}
use nvsim.Double.Tenths.{Tenths, tenths}
use nvsim.Input.Defaults.{new_input_parameter}
use nvsim.Globals.{Globals, on_current}
use nvsim.Formula.{
  temp_index, calculate_gate_cap, max_widths, fold, calculate_gate_capacitance, calculate_drain_cap,
  calculate_on_resistance,
}
use nvsim.Driver.{total_effort, ideal_stages, latency_chain, trade_off_chain}
use nvsim.Driver.Widths
use nvsim.Driver.Widths.{
  OutputDriver, min_driver_width, taper, last_width, trade_off, stages_of, latency_first_stages,
  one_stage, initialize_from,
}
use nvsim.Driver.Figures
use nvsim.Driver.Figures.{stages_area, stages_rc}
use nvsim.Circuit.Mux
use nvsim.Circuit.Mux.{Multiplexer, pass_width}
use nvsim.Circuit.SenseAmp
use nvsim.Circuit.SenseAmp.{Amplifiers, load_of, one_amplifier}
use nvsim.Circuit.RowDecoder
use nvsim.Circuit.RowDecoder.{Decoder, DecoderRequest, nand_inputs, nand_of}
use nvsim.Circuit.Precharger
use nvsim.Circuit.Precharger.{Prechargers, drains}
use nvsim.Circuit.Idle.{IsIdle, Follows, initialize-Follows}
use nvsim.Circuit.Copies.{SameArrays, SameInverter, assign-copies_iff, prechargers-copies_iff}
use nvsim.SubArray.State.{SubArrayRequest, Subarray}
use nvsim.SubArray.Legality.{
  check_shape, max_currents, min_mux_width, voltage_sensing, sensed_voltage,
}
use nvsim.SubArray.Access.{with_lines, with_access, with_sensing}
use nvsim.SubArray.Setup
use nvsim.SubArray.Setup.{
  with_precharger, with_row_decoder, mux_decoder, with_mux_decoders, with_output_muxes,
  with_sense_amp, with_bitline_mux, with_circuits, checked,
}
use nvsim.SubArray.Legal.{IsLegal, initialize-IsLegal}
use nvsim.Tests.Files.{zero_cell}
use nvsim.Tests.Circuits.{globals, no_figures, new_driver, driver, result_or}

abbrev new_decoder : Decoder Tenths
new_decoder = record {
  figures = no_figures;
  initialized = false;
  is_invalid = false;
  output_driver = new_driver;
  num_row = 0;
  multiple_row_per_set = false;
  num_nand_input = 0;
  cap_load = 0;
  res_load = 0;
  area_optimization_level = BufferDesignTarget.latency_first;
  min_driver_current = 0;
  width_nand_n = 0;
  width_nand_p = 0;
  cap_nand_input = 0;
  cap_nand_output = 0;
  ramp_input = 0;
  ramp_output = 0;
}

abbrev decoder_request : DecoderRequest Tenths
decoder_request = record {
  num_row = 16;
  cap_load = 100;
  res_load = 10;
  multiple_row_per_set = false;
  area_optimization_level = BufferDesignTarget.latency_first;
  min_driver_current = 0;
}

abbrev decoder : Decoder Tenths
decoder = result_or new_decoder (RowDecoder.initialize globals decoder_request new_decoder)

decoder_made : RowDecoder.initialize globals decoder_request new_decoder ≡ some decoder
unfolding RowDecoder.initialize nand_inputs nand_of Widths.initialize initialize_from
    min_driver_width on_current temp_index latency_first_stages stages_of total_effort ideal_stages
    latency_chain last_width calculate_gate_cap trade_off taper calculate_gate_capacitance
    max_widths fold trade_off_chain one_stage
decoder_made = refl

initialize-Follows_example :
    Follows globals decoder × (decoder.is_invalid ≡ true → IsIdle globals decoder)
initialize-Follows_example =
    initialize-Follows globals decoder_request new_decoder decoder decoder_made refl refl

assign-copies_iff_example : Figures.assign driver new_driver ≡ driver ↔ SameArrays new_driver driver
assign-copies_iff_example = assign-copies_iff driver new_driver

abbrev new_precharger : Prechargers Tenths
new_precharger = record {
  figures = no_figures;
  initialized = false;
  output_driver = new_driver;
  voltage_precharge = 0;
  num_column = 0;
  cap_bitline = 0;
  res_bitline = 0;
  cap_wire_load_per_column = 0;
  res_wire_load_per_column = 0;
  width_inv_nmos = 0;
  width_inv_pmos = 0;
  width_pmos_bitline_equal = 0;
  width_pmos_bitline_precharger = 0;
  cap_load_inv = 0;
  cap_output_bitline_precharger = 0;
  cap_load_per_column = 0;
  enable_latency = 0;
  ramp_input = 0;
  ramp_output = 0;
}

abbrev precharger : Prechargers Tenths
precharger = record new_precharger {
  voltage_precharge = 10;
  width_inv_nmos = 10;
  width_inv_pmos = 20;
}

prechargers-copies_iff_example :
    Precharger.assign precharger new_precharger ≡ precharger
    ↔ (SameInverter new_precharger precharger × SameArrays new_driver new_driver)
prechargers-copies_iff_example = prechargers-copies_iff precharger new_precharger

abbrev legal : Globals Tenths
legal = record globals {
  cell = record zero_cell {
    mem_cell_type = MemCellType.sram;
    width_in_feature_size = 100;
    height_in_feature_size = 100;
    width_access_cmos = 13;
  };
}

abbrev array_request : SubArrayRequest
array_request = record {
  num_row = 8;
  num_column = 8;
  multiple_row_per_set = false;
  split = false;
  mux_sense_amp = 1;
  internal_sense_amp = true;
  mux_output_lev1 = 1;
  mux_output_lev2 = 1;
  area_optimization_level = BufferDesignTarget.latency_first;
}

abbrev new_mux : Multiplexer Tenths
new_mux = record {
  figures = no_figures;
  initialized = false;
  num_input = 0;
  num_mux = 0;
  cap_load = 0;
  cap_input_next_stage = 0;
  min_driver_current = 0;
  cap_output = 0;
  width_nmos_pass_transistor = 0;
  res_nmos_pass_transistor = 0;
  cap_nmos_pass_transistor = 0;
  cap_for_previous_delay_calculation = 0;
  cap_for_previous_power_calculation = 0;
  ramp_input = 0;
  ramp_output = 0;
}

abbrev new_amplifiers : Amplifiers Tenths
new_amplifiers = record {
  figures = no_figures;
  initialized = false;
  is_invalid = false;
  num_column = 0;
  current_sense = false;
  sense_voltage = 0;
  cap_load = 0;
  pitch_sense_amp = 0;
}

abbrev new_subarray : Subarray Tenths
new_subarray = record {
  figures = no_figures;
  initialized = false;
  is_invalid = false;
  request = array_request;
  voltage_sense = false;
  sense_voltage = 0;
  voltage_precharge = 0;
  num_sense_amp = 0;
  len_wordline = 0;
  len_bitline = 0;
  cap_wordline = 0;
  cap_bitline = 0;
  res_wordline = 0;
  res_bitline = 0;
  res_cell_access = 0;
  cap_cell_access = 0;
  res_mem_cell_off = 0;
  res_mem_cell_on = 0;
  voltage_mem_cell_off = 0;
  voltage_mem_cell_on = 0;
  res_in_serial_for_sense_amp = 0;
  res_equivalent_on = 0;
  res_equivalent_off = 0;
  bitline_delay = 0;
  charge_latency = 0;
  column_decoder_latency = 0;
  bitline_delay_on = 0;
  bitline_delay_off = 0;
  row_decoder = new_decoder;
  bitline_mux_decoder = new_decoder;
  bitline_mux = new_mux;
  sense_amp_mux_lev1_decoder = new_decoder;
  sense_amp_mux_lev1 = new_mux;
  sense_amp_mux_lev2_decoder = new_decoder;
  sense_amp_mux_lev2 = new_mux;
  precharger = new_precharger;
  sense_amp = new_amplifiers;
}

abbrev array : Subarray Tenths
array = result_or new_subarray (Setup.initialize legal array_request new_subarray)

array_made :
    (Setup.initialize legal array_request new_subarray ≡ some array) × (array.is_invalid ≡ false)
unfolding Setup.initialize checked check_shape max_currents min_mux_width voltage_sensing
    sensed_voltage with_lines with_access with_sensing with_circuits with_precharger
    with_row_decoder mux_decoder with_mux_decoders with_output_muxes with_sense_amp with_bitline_mux
    RowDecoder.initialize RowDecoder.calculate_rc nand_inputs nand_of Widths.initialize
    initialize_from min_driver_width on_current temp_index latency_first_stages stages_of
    total_effort ideal_stages latency_chain last_width calculate_gate_cap trade_off taper
    calculate_gate_capacitance max_widths fold trade_off_chain one_stage Figures.calculate_rc
    stages_rc Precharger.initialize drains Precharger.calculate_rc Mux.initialize pass_width
    Mux.calculate_rc SenseAmp.initialize load_of one_amplifier SenseAmp.calculate_rc
    calculate_drain_cap calculate_on_resistance new_input_parameter
array_made = (refl, refl)

initialize-IsLegal_example : IsLegal legal array_request × (array.initialized ≡ true)
initialize-IsLegal_example =
    initialize-IsLegal legal array_request new_subarray array array_made.0 array_made.1
