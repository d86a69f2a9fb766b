-- ===== src/SubArray/Setup.antt =====
-- SubArray.cpp: SubArray::Initialize.
use nvsim.Shared.{ℕ, Bool, true, false, not, if◌then◌else◌, Option, none, some}
use nvsim.Double.{Double, ◌⊕◌, ◌⊗◌, ◌⊘◌, whole}
use nvsim.Globals.{Globals}
use nvsim.Formula.{calculate_gate_cap}
use nvsim.Circuit.Mux
use nvsim.Circuit.Mux.{Multiplexer}
use nvsim.Circuit.SenseAmp
use nvsim.Circuit.SenseAmp.{Amplifiers}
use nvsim.Circuit.Precharger
use nvsim.Circuit.RowDecoder
use nvsim.Circuit.RowDecoder.{Decoder}
use nvsim.SubArray.State.{
  SubArrayRequest, Subarray, Check, goes_on, rejects, drops, undefined, ◌>>=◌, defined, divide,
}
use nvsim.SubArray.Legality.{
  check_shape, max_currents, min_mux_width, voltage_sensing, sensed_voltage,
}
use nvsim.SubArray.Access.{with_lines, with_access}

module _ {D : Type 0} ⦃d : Double D⦄ (g : Globals D) (r : SubArrayRequest) where
  -- The prechargers, initialized for the lines and with their capacitances.
  unfoldable pub with_precharger : Subarray D → Check (Subarray D)
  with_precharger s = do
    p ←
        defined
          (Precharger.initialize g g.tech.vdd r.num_column s.cap_bitline s.res_bitline s.precharger)
    p ← defined (Precharger.calculate_rc g p)
    goes_on (record s { precharger = p })

  -- An invalid row decoder ends Initialize.
  unfoldable pub with_row_decoder : D → Subarray D → Check (Subarray D)
  with_row_decoder wordline_current s = do
    x ← defined (
        RowDecoder.initialize g
          (record {
            num_row = r.num_row;
            cap_load = s.cap_wordline;
            res_load = s.res_wordline;
            multiple_row_per_set = r.multiple_row_per_set;
            area_optimization_level = r.area_optimization_level;
            min_driver_current = wordline_current;
          })
          s.row_decoder)
    elim x.is_invalid [
      | true ↦ drops
      | false ↦ do y ← defined (RowDecoder.calculate_rc g x); goes_on (record s { row_decoder = y })
    ]

  -- A decoder for the `n` inputs of a multiplexer, where the subarray is still valid, and whether it
  -- is invalid then.
  unfoldable pub mux_decoder : ℕ → D → D → Bool → Decoder D → Check (Decoder D × Bool)
  mux_decoder n cap res true x = goes_on (x, true)
  mux_decoder n cap res false x = do
    y ← defined (
        RowDecoder.initialize g
          (record {
            num_row = n;
            cap_load = cap;
            res_load = res;
            multiple_row_per_set = false;
            area_optimization_level = r.area_optimization_level;
            min_driver_current = whole 0;
          })
          x)
    elim y.is_invalid [
      | true ↦ goes_on (y, true)
      | false ↦ do z ← defined (RowDecoder.calculate_rc g y); goes_on (z, false)
    ]

  unfoldable pub with_mux_decoders : D → D → Subarray D → Check (Subarray D)
  with_mux_decoders cap res s = do
    a ← mux_decoder r.mux_sense_amp cap res s.is_invalid s.bitline_mux_decoder
    b ← mux_decoder r.mux_output_lev1 cap res a.1 s.sense_amp_mux_lev1_decoder
    c ← mux_decoder r.mux_output_lev2 cap res b.1 s.sense_amp_mux_lev2_decoder
    goes_on (record s {
      bitline_mux_decoder = a.0;
      sense_amp_mux_lev1_decoder = b.0;
      sense_amp_mux_lev2_decoder = c.0;
      is_invalid = c.1;
    })

  abbrev new_mux : ℕ → ℕ → D → D → D → Multiplexer D → Check (Multiplexer D)
  new_mux inputs count load next current m = defined (
      Mux.initialize g
        (record {
          num_input = inputs;
          num_mux = count;
          cap_load = load;
          cap_input_next_stage = next;
          min_driver_current = current;
        })
        m)

  -- The multiplexers behind the sense amplifiers.
  unfoldable pub with_output_muxes : D → Subarray D → Check (Subarray D)
  with_output_muxes current s = do
    n ← divide r.num_column r.mux_sense_amp
    n1 ← divide n r.mux_output_lev1
    n2 ← divide n1 r.mux_output_lev2
    lev2 ← new_mux r.mux_output_lev2 n2 (whole 0) (whole 0) current s.sense_amp_mux_lev2
    lev2 ← defined (Mux.calculate_rc g lev2)
    lev1 ←
        new_mux r.mux_output_lev1 n1 lev2.cap_for_previous_delay_calculation
          lev2.cap_for_previous_power_calculation current s.sense_amp_mux_lev1
    lev1 ← defined (Mux.calculate_rc g lev1)
    goes_on (record s { sense_amp_mux_lev2 = lev2; sense_amp_mux_lev1 = lev1 })

  -- The sense amplifiers, where the subarray has them and is still valid, and whether it is invalid
  -- then.
  abbrev sense_amplifiers : Bool → Bool → Subarray D → Check (Amplifiers D × Bool)
  sense_amplifiers true false s =
      let x =
        SenseAmp.initialize g s.num_sense_amp (not s.voltage_sense) s.sense_voltage
          (s.len_wordline ⊘ whole r.num_column ⊗ whole r.mux_sense_amp) s.sense_amp in
      elim x.is_invalid [
        | true ↦ goes_on (x, true)
        | false ↦ do y ← defined (SenseAmp.calculate_rc g x); goes_on (y, false)
      ]
  sense_amplifiers internal is_invalid s = goes_on (s.sense_amp, is_invalid)

  unfoldable pub with_sense_amp : Subarray D → Check (Subarray D)
  with_sense_amp s = do
    a ← sense_amplifiers r.internal_sense_amp s.is_invalid s
    goes_on (record s { sense_amp = a.0; is_invalid = a.1 })

  -- The loads of the multiplexers at the bitlines: what lies behind them.
  abbrev bitline_loads : Subarray D → D × D
  bitline_loads s = if r.internal_sense_amp then (s.sense_amp.cap_load, s.sense_amp.cap_load) else (
    s.sense_amp_mux_lev1.cap_for_previous_delay_calculation,
    s.sense_amp_mux_lev1.cap_for_previous_power_calculation,
  )

  unfoldable pub with_bitline_mux : D → Subarray D → Check (Subarray D)
  with_bitline_mux current s = elim s.is_invalid [
    | true ↦ goes_on s
    | false ↦ do
      n ← divide r.num_column r.mux_sense_amp
      m ← new_mux r.mux_sense_amp n (bitline_loads s).0 (bitline_loads s).1 current s.bitline_mux
      m ← defined (Mux.calculate_rc g m)
      goes_on (record s { bitline_mux = m })
  ]

  -- The circuits of the subarray, from the greatest currents and the load of the mux decoders on.
  unfoldable pub with_circuits : D × D → D → D → Subarray D → Check (Subarray D)
  with_circuits currents cap_mux_load res_mux_load s = do
    s ← with_precharger s
    s ← with_row_decoder currents.0 s
    s ← with_mux_decoders cap_mux_load res_mux_load s
    s ← with_output_muxes currents.1 s
    s ← with_sense_amp s
    s ← with_bitline_mux currents.1 s
    goes_on (record s { initialized = true })

  unfoldable pub checked : Subarray D → Check (Subarray D)
  checked s = do
    u ← check_shape g r
    currents ← max_currents g r
    mux_width ← min_mux_width g r currents.1
    sensing ← voltage_sensing g r s.voltage_sense
    voltage ← sensed_voltage g r s.cap_bitline
    s ← with_lines g r (record s { voltage_sense = sensing; sense_voltage = voltage })
    let cap_mux_load = calculate_gate_cap mux_width g.tech ⊗ whole r.num_column ⊕ s.cap_wordline
    let res_mux_load = s.res_wordline
    s ← with_access g r s
    with_circuits currents cap_mux_load res_mux_load s

  -- The subarray that a way to end leaves. What a step had set before it returned is left out: nothing
  -- reads it.
  abbrev pub ended : Check (Subarray D) → Subarray D → Option (Subarray D)
  ended (goes_on t) s = some t
  ended rejects s = some (record s { is_invalid = true; initialized = true })
  ended drops s = some (record s { is_invalid = true })
  ended undefined s = none

  unfoldable pub initialize : Subarray D → Option (Subarray D)
  initialize s = ended (checked (record s { request = r })) (record s { request = r })
