-- ===== src/Circuit/SenseAmp.antt =====
-- SenseAmp.h and SenseAmp.cpp: a row of sense amplifiers.
use nvsim.Shared.{ℕ, Bool, true, false, if◌then◌else◌, Option, some, ◌>>=◌}
use nvsim.Double.{Double, ◌⊕◌, ◌⊗◌, ◌⊘◌, ◌≼◌, whole, max_d}
use nvsim.Formula.{
  Channel, nmos, pmos, single, Footprint, calculate_gate_area, calculate_gate_cap,
  calculate_drain_cap, calculate_gate_leakage, calculate_transconductance,
}
use nvsim.FunctionUnit.{FunctionUnit, huge, with_area, with_latency, with_power}
use nvsim.Globals.{Globals}

pub record Amplifiers (D : Type 0) : Type 0 where
  pub figures : FunctionUnit D
  pub initialized : Bool
  pub is_invalid : Bool
  pub num_column : ℕ
  pub current_sense : Bool
  pub sense_voltage : D
  pub cap_load : D
  pub pitch_sense_amp : D

module _ {D : Type 0} ⦃d : Double D⦄ (g : Globals D) where
  -- Too small a pitch cannot be laid out; the flag is never taken back.
  unfoldable pub initialize : ℕ → Bool → D → D → Amplifiers D → Amplifiers D
  initialize num_column current_sense sense_voltage pitch s = record s {
    initialized = true;
    is_invalid = if pitch ≼ g.tech.feature_size ⊗ whole 2 then true else s.is_invalid;
    num_column = num_column;
    current_sense = current_sense;
    sense_voltage = sense_voltage;
    pitch_sense_amp = pitch;
  }

  -- A transistor `w` feature sizes wide: the layout exchanges its height and width.
  abbrev transistor : Channel → D → D → Footprint D
  transistor channel w pitch =
      calculate_gate_area (single channel (w ⊗ g.tech.feature_size) pitch) g.tech

  abbrev w_sense_p : D
  w_sense_p = d.decimal 75 1

  abbrev w_sense_n : D
  w_sense_n = d.decimal 375 2

  abbrev w_sense_iso : D
  w_sense_iso = d.decimal 125 1

  abbrev w_sense_en : D
  w_sense_en = d.decimal 50 1

  abbrev w_sense_mux : D
  w_sense_mux = d.decimal 90 1

  -- `2 * MIN_GAP_BET_SAME_TYPE_DIFFS * tech->featureSize`.
  abbrev gap : D
  gap = whole 2 ⊗ d.decimal 15 1 ⊗ g.tech.feature_size

  -- The height, and the width, of one amplifier before it is fitted to the pitch.
  unfoldable pub one_amplifier : D → D × D
  one_amplifier pitch =
      let p = transistor pmos w_sense_p pitch in
      let iso = transistor pmos w_sense_iso pitch in
      let n = transistor nmos w_sense_n pitch in
      let en = transistor nmos w_sense_en pitch in
      (
        whole 0
            ⊕ whole 2 ⊗ p.width
            ⊕ iso.width
            ⊕ gap
            ⊕ whole 2 ⊗ n.width
            ⊕ en.width
            ⊕ gap
            ⊕ whole 2 ⊗ g.tech.feature_size,
        max_d (max_d (max_d (max_d (whole 0) p.height) iso.height) n.height) en.height,
      )

  -- IV_CONVERTER_AREA, for current sensing.
  abbrev converter : Bool → D
  converter true = whole 0 ⊕ whole 50000 ⊗ g.tech.feature_size ⊗ g.tech.feature_size
  converter false = whole 0

  abbrev area_of : Amplifiers D → FunctionUnit D
  area_of s =
      let one = one_amplifier s.pitch_sense_amp in
      let height =
        one.0 ⊗ one.1 ⊘ s.pitch_sense_amp ⊕ converter s.current_sense ⊘ s.pitch_sense_amp in
      let width = s.pitch_sense_amp ⊗ whole s.num_column in
      with_area height width (height ⊗ width) s.figures

  unfoldable pub calculate_area : Amplifiers D → Amplifiers D
  calculate_area s = elim s.initialized [
    | false ↦ s
    | true ↦ elim s.is_invalid [
      | true ↦ record s { figures = with_area huge huge huge s.figures }
      | false ↦ record s { figures = area_of s }
    ]
  ]

  unfoldable pub load_of : D → Option D
  load_of pitch = do
    n ← calculate_drain_cap (w_sense_n ⊗ g.tech.feature_size) nmos pitch g.tech
    p ← calculate_drain_cap (w_sense_p ⊗ g.tech.feature_size) pmos pitch g.tech
    iso ← calculate_drain_cap (w_sense_iso ⊗ g.tech.feature_size) pmos pitch g.tech
    mux ← calculate_drain_cap (w_sense_mux ⊗ g.tech.feature_size) nmos pitch g.tech
    some (
        calculate_gate_cap ((w_sense_p ⊕ w_sense_n) ⊗ g.tech.feature_size) g.tech
        ⊕ n
        ⊕ p
        ⊕ iso
        ⊕ mux)

  unfoldable pub calculate_rc : Amplifiers D → Option (Amplifiers D)
  calculate_rc s = elim s.initialized [
    | false ↦ some s
    | true ↦ elim s.is_invalid [
      | true ↦ some (record s { figures = with_latency huge huge s.figures })
      | false ↦ do cap ← load_of s.pitch_sense_amp; some (record s { cap_load = cap })
    ]
  ]

  -- By the feature size, from 119, 89, 64, 44 and 31 nm on, and below.
  abbrev by_size : D → D → D → D → D → D → D
  by_size n120 n90 n65 n45 n32 n22 =
      if d.decimal 119 9 ≼ g.tech.feature_size
      then n120
      else if d.decimal 89 9 ≼ g.tech.feature_size
      then n90
      else if d.decimal 64 9 ≼ g.tech.feature_size
      then n65
      else if d.decimal 44 9 ≼ g.tech.feature_size
      then n45
      else if d.decimal 31 9 ≼ g.tech.feature_size
      then n32
      else n22

  -- What the converter of current sensing adds.
  abbrev converter_latency : Bool → D
  converter_latency false = whole 0
  converter_latency true =
      whole 0
      ⊕ by_size (d.decimal 49 11) (d.decimal 53 11) (d.decimal 62 11) (d.decimal 80 11)
          (d.decimal 107 11) (d.decimal 145 11)

  abbrev converter_energy : Bool → D
  converter_energy false = whole 0
  converter_energy true =
      whole 0
      ⊕ by_size (d.decimal 852 16) (d.decimal 872 16) (d.decimal 900 16) (d.decimal 1026 16)
          (d.decimal 1256 16) (d.decimal 15 14)

  abbrev converter_leakage : Bool → D
  converter_leakage false = whole 0
  converter_leakage true =
      whole 0
      ⊕ by_size (d.decimal 140 10) (d.decimal 187 10) (d.decimal 257 10) (d.decimal 441 11)
          (d.decimal 1254 10) (d.decimal 15 8)

  unfoldable pub calculate_latency : D → Amplifiers D → Amplifiers D
  calculate_latency ramp s = elim s.initialized [
    | false ↦ s
    | true ↦
        let gm =
          calculate_transconductance (w_sense_n ⊗ g.tech.feature_size) nmos g.tech
          ⊕ calculate_transconductance (w_sense_p ⊗ g.tech.feature_size) pmos g.tech in
        let latency =
          converter_latency s.current_sense
          ⊕ s.cap_load ⊘ gm ⊗ d.log (g.tech.vdd ⊘ s.sense_voltage) in
        record s { figures = with_latency latency (whole 0) s.figures }
  ]

  unfoldable pub calculate_power : Amplifiers D → Option (Amplifiers D)
  calculate_power s = elim s.initialized [
    | false ↦ some s
    | true ↦ elim s.is_invalid [
      | true ↦ some (record s { figures = with_power huge huge huge s.figures })
      | false ↦ do
        idle ←
            calculate_gate_leakage (single nmos (w_sense_en ⊗ g.tech.feature_size) (whole 0))
              g.input.temperature g.tech
        let energy =
            (converter_energy s.current_sense ⊕ s.cap_load ⊗ g.tech.vdd ⊗ g.tech.vdd)
            ⊗ whole s.num_column
        let leakage =
            (converter_leakage s.current_sense ⊕ idle ⊗ g.tech.vdd ⊗ g.tech.vdd)
            ⊗ whole s.num_column
        some (record s { figures = with_power energy (whole 0) leakage s.figures })
    ]
  ]
