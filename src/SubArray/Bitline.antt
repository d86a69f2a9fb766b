-- ===== src/SubArray/Bitline.antt =====
-- SubArray.cpp: what SubArray::CalculateLatency computes for all cells, and for SRAM and DRAM.
use nvsim.Shared.{
  ℕ, ◌/◌, ◌^◌, zero, suc, Bool, true, false, if◌then◌else◌, Option, none, some, ◌>>=◌,
}
use nvsim.Types.{CellAccessType, WriteScheme}
use nvsim.Double.{Double, ◌⊕◌, ◌⊖◌, ◌⊗◌, ◌⊘◌, whole, max_d}
use nvsim.FunctionUnit.{with_latency}
use nvsim.Globals.{Globals}
use nvsim.Formula.{nmos, calculate_on_resistance, calculate_transconductance, horowitz}
use nvsim.Circuit.Mux
use nvsim.Circuit.SenseAmp
use nvsim.Circuit.Precharger
use nvsim.Circuit.RowDecoder
use nvsim.SubArray.State.{Subarray}

-- A division of integers.
abbrev pub quotient : ℕ → ℕ → Option ℕ
quotient n zero = none
quotient n (suc k) = some (n / suc k)

abbrev pub is_crossbar : CellAccessType → Bool
is_crossbar CellAccessType.diode_access = true
is_crossbar CellAccessType.none_access = true
is_crossbar _ = false

abbrev pub erases_before : WriteScheme → Bool
erases_before WriteScheme.erase_before_set = true
erases_before WriteScheme.erase_before_reset = true
erases_before _ = false

abbrev pub verifies : WriteScheme → Bool
verifies WriteScheme.write_and_verify = true
verifies _ = false

module _ {D : Type 0} ⦃d : Double D⦄ (g : Globals D) where
  -- 1e20, the ramp of a step.
  abbrev step_ramp : D
  step_ramp = d.decimal (10 ^ 20) 0

  abbrev charge_time : Subarray D → D
  charge_time s =
      let cap =
        s.bitline_mux.cap_nmos_pass_transistor ⊕ s.sense_amp_mux_lev1.cap_nmos_pass_transistor
        ⊕ s.sense_amp_mux_lev2.cap_nmos_pass_transistor in
      let res =
        s.bitline_mux.res_nmos_pass_transistor ⊕ s.sense_amp_mux_lev1.res_nmos_pass_transistor
        ⊕ s.sense_amp_mux_lev2.res_nmos_pass_transistor in
      res ⊗ (cap ⊕ s.cap_bitline) ⊕ s.res_bitline ⊗ s.cap_bitline ⊘ whole 2

  -- The precharger and the decoders, and the latencies that follow from them.
  unfoldable pub with_decoders : D → Subarray D → Option (Subarray D)
  with_decoders ramp s = do
    precharger ← Precharger.calculate_latency g ramp s.precharger
    rows ← RowDecoder.calculate_latency g ramp s.row_decoder
    bitlines ← RowDecoder.calculate_latency g ramp s.bitline_mux_decoder
    lev1 ← RowDecoder.calculate_latency g ramp s.sense_amp_mux_lev1_decoder
    lev2 ← RowDecoder.calculate_latency g ramp s.sense_amp_mux_lev2_decoder
    some (record s {
      precharger = precharger;
      row_decoder = rows;
      bitline_mux_decoder = bitlines;
      sense_amp_mux_lev1_decoder = lev1;
      sense_amp_mux_lev2_decoder = lev2;
      column_decoder_latency =
          max_d (max_d bitlines.figures.read_latency lev1.figures.read_latency)
            lev2.figures.read_latency;
      charge_latency = (horowitz (charge_time s) (whole 0) step_ramp).0;
    })

  abbrev decoder_latency : Subarray D → D
  decoder_latency s = max_d s.row_decoder.figures.read_latency s.column_decoder_latency

  -- The multiplexers and sense amplifiers behind the bitlines, for the ramp of a bitline.
  abbrev pub with_outputs : D → Subarray D → Subarray D
  with_outputs ramp s =
      let bitlines = Mux.calculate_latency g ramp s.bitline_mux in
      let amps =
        if s.request.internal_sense_amp
        then SenseAmp.calculate_latency g s.bitline_mux_decoder.ramp_output s.sense_amp
        else s.sense_amp in
      let lev1 =
        Mux.calculate_latency g
          (if s.request.internal_sense_amp then step_ramp else bitlines.ramp_output)
          s.sense_amp_mux_lev1 in
      let lev2 = Mux.calculate_latency g lev1.ramp_output s.sense_amp_mux_lev2 in
      record s {
        bitline_mux = bitlines;
        sense_amp = amps;
        sense_amp_mux_lev1 = lev1;
        sense_amp_mux_lev2 = lev2;
      }

  -- The read latency once all its parts are known.
  abbrev pub read_sum : Subarray D → D
  read_sum s =
      decoder_latency s
      ⊕ s.bitline_delay
      ⊕ s.bitline_mux.figures.read_latency
      ⊕ s.sense_amp.figures.read_latency
      ⊕ s.sense_amp_mux_lev1.figures.read_latency
      ⊕ s.sense_amp_mux_lev2.figures.read_latency

  -- The time constant of a bitline that a resistance drives.
  abbrev pub bitline_tau : D → Subarray D → D
  bitline_tau res s =
      let mux = s.bitline_mux.cap_for_previous_delay_calculation in
      res ⊗ (s.cap_cell_access ⊕ s.cap_bitline ⊕ mux)
      ⊕ s.res_bitline ⊗ (mux ⊕ s.cap_bitline ⊘ whole 2)

  unfoldable pub sram_latency : Subarray D → Option (Subarray D)
  sram_latency s = do
    res ←
        calculate_on_resistance (g.cell.width_sram_cell_nmos ⊗ g.tech.feature_size) nmos
          g.input.temperature g.tech
    let swing = d.log (s.voltage_precharge ⊘ (s.voltage_precharge ⊖ s.sense_voltage ⊘ whole 2))
    let gm = calculate_transconductance (g.cell.width_access_cmos ⊗ g.tech.feature_size) nmos g.tech
    let delay =
        horowitz (bitline_tau (s.res_cell_access ⊕ res) s ⊗ swing) (whole 1 ⊘ (res ⊗ gm))
          s.row_decoder.ramp_output
    let t = with_outputs delay.1 (record s { bitline_delay = delay.0 })
    some (record t { figures = with_latency (read_sum t) (read_sum t) t.figures })

  -- A DRAM has no multiplexer before its sense amplifiers.
  unfoldable pub dram_latency : Subarray D → Subarray D
  dram_latency s =
      let own = s.cap_cell_access ⊕ g.cell.cap_dram_cell in
      let line = s.cap_bitline ⊕ s.bitline_mux.cap_for_previous_delay_calculation in
      let cap =
        own ⊗ line ⊘ (own ⊕ s.cap_bitline ⊕ s.bitline_mux.cap_for_previous_delay_calculation) in
      let delay =
        horowitz (d.decimal 23 1 ⊗ (s.res_bitline ⊕ s.res_cell_access) ⊗ cap) (whole 0)
          s.row_decoder.ramp_output in
      let amps = SenseAmp.calculate_latency g delay.1 s.sense_amp in
      let lev1 = Mux.calculate_latency g step_ramp s.sense_amp_mux_lev1 in
      let lev2 = Mux.calculate_latency g lev1.ramp_output s.sense_amp_mux_lev2 in
      let latency =
        decoder_latency s
        ⊕ delay.0
        ⊕ amps.figures.read_latency
        ⊕ lev1.figures.read_latency
        ⊕ lev2.figures.read_latency in
      record s {
        bitline_delay = delay.0;
        sense_amp = amps;
        sense_amp_mux_lev1 = lev1;
        sense_amp_mux_lev2 = lev2;
        figures = with_latency latency latency s.figures;
      }
