-- ===== src/Driver/Figures.antt =====
-- OutputDriver.cpp: CalculateArea, CalculateRC, CalculateLatency, CalculatePower and the assignment.
use nvsim.Driver.{max_chain}
use nvsim.Shared.{if◌then◌else◌, ltb, ℕ, zero, suc, true, false, Option, none, some, ◌>>=◌}
use nvsim.Double.{Double, ◌⊕◌, ◌⊗◌, ◌⊘◌, whole, max_d}
use nvsim.Formula.{
  inverter, Gate, GateCapacitance, Channel, nmos, calculate_gate_area, calculate_gate_capacitance,
  calculate_gate_leakage, calculate_on_resistance, calculate_transconductance, horowitz,
}
use nvsim.FunctionUnit.{huge, with_area, with_latency, with_power}
use nvsim.Globals.{Globals, region_height, transistor_height}
use nvsim.Technology.State.{write}
use nvsim.Driver.Widths.{OutputDriver}

-- `rhs` assigned to the object: the arrays of widths and capacitances stay its own.
unfoldable pub assign : {D : Type 0} → OutputDriver D → OutputDriver D → OutputDriver D
assign rhs s = record rhs {
  width_nmos = s.width_nmos;
  width_pmos = s.width_pmos;
  cap_input = s.cap_input;
  cap_output = s.cap_output;
}

-- An element of an array of 20; past the end the language defines nothing.
unfoldable pub read : {D : Type 0} → (ℕ → D) → ℕ → Option D
read a i = if ltb i max_chain then some (a i) else none

module _ {D : Type 0} ⦃d : Double D⦄ (g : Globals D) where
  -- The inverter of a stage, whose widths are read.
  unfoldable pub stage : ℕ → D → OutputDriver D → Option (Gate D)
  unfolding read
  stage i height s = do n ← read s.width_nmos i; p ← read s.width_pmos i; some (inverter n p height)

  -- The loop of CalculateArea: the largest height and the sum of the widths, from stage `i` on.
  unfoldable pub stages_area : ℕ → ℕ → OutputDriver D → D × D → Option (D × D)
  unfolding stage
  stages_area zero i s total = some total
  stages_area (suc n) i s total = do
    gate ← stage i (region_height g) s
    let a = calculate_gate_area gate g.tech
    stages_area n (suc i) s (max_d total.0 a.height, total.1 ⊕ a.width)

  abbrev pub area_of : ℕ → OutputDriver D → Option (OutputDriver D)
  area_of n s = do
    total ← stages_area n 0 s (whole 0, whole 0)
    some (record s { figures = with_area total.0 total.1 (total.0 ⊗ total.1) s.figures })

  unfoldable pub calculate_area : OutputDriver D → Option (OutputDriver D)
  calculate_area s = elim s.initialized [
    | false ↦ some s
    | true ↦ elim s.is_invalid [
      | true ↦ some (record s { figures = with_area huge huge huge s.figures })
      | false ↦ area_of s.num_stage s
    ]
  ]

  abbrev pub with_caps : ℕ → GateCapacitance D → OutputDriver D → OutputDriver D
  with_caps i c s = record s {
    cap_input = write s.cap_input i c.cap_input;
    cap_output = write s.cap_output i c.cap_output;
  }

  -- The loop of CalculateRC, which writes where it has read.
  unfoldable pub stages_rc : ℕ → ℕ → OutputDriver D → Option (OutputDriver D)
  unfolding stage
  stages_rc zero i s = some s
  stages_rc (suc n) i s = do
    gate ← stage i (transistor_height g) s
    c ← calculate_gate_capacitance gate g.tech
    stages_rc n (suc i) (with_caps i c s)

  abbrev pub rc_of : ℕ → OutputDriver D → Option (OutputDriver D)
  rc_of zero s = some (record s { cap_input = write s.cap_input 0 (whole 0) })
  rc_of (suc n) s = stages_rc (suc n) 0 s

  unfoldable pub calculate_rc : OutputDriver D → Option (OutputDriver D)
  calculate_rc s = elim s.initialized [
    | false ↦ some s
    | true ↦ elim s.is_invalid [ true ↦ some s | false ↦ rc_of s.num_stage s ]
  ]

  -- The delay of a gate with a time constant, and the ramp that it leaves: `res` is the resistance of
  -- the transistor of width `width`.
  abbrev pub gate_delay : D → D → Channel → D → D → D × D
  gate_delay res width channel tr ramp =
      horowitz tr (whole 1 ⊘ (res ⊗ calculate_transconductance width channel g.tech)) ramp

  -- The loop of CalculateLatency: the delay so far and the ramp, from stage `i` on.
  unfoldable pub stages_latency : ℕ → ℕ → OutputDriver D → D × D → Option (D × D)
  unfolding read
  stages_latency zero i s so_far = some so_far
  stages_latency (suc n) i s so_far = do
    width ← read s.width_nmos i
    res ← calculate_on_resistance width nmos g.input.temperature g.tech
    out ← read s.cap_output i
    next ← read s.cap_input (suc i)
    let step = gate_delay res width nmos (res ⊗ (out ⊕ next)) so_far.1
    stages_latency n (suc i) s (so_far.0 ⊕ step.0, step.1)

  -- With the last inverter, the one before `n`. Without a stage the source reads before the arrays.
  abbrev pub latency_of : ℕ → D → OutputDriver D → Option (OutputDriver D)
  latency_of zero ramp s = none
  latency_of (suc i) ramp s = do
    so_far ← stages_latency i 0 s (whole 0, ramp)
    width ← read s.width_nmos i
    res ← calculate_on_resistance width nmos g.input.temperature g.tech
    out ← read s.cap_output i
    let last =
        gate_delay res width nmos
          (res ⊗ (out ⊕ s.output_cap) ⊕ s.output_cap ⊗ s.output_res ⊘ whole 2) so_far.1
    some (record s {
      figures = with_latency (so_far.0 ⊕ last.0) (so_far.0 ⊕ last.0) s.figures;
      ramp_input = ramp;
      ramp_output = last.1;
    })

  unfoldable pub calculate_latency : D → OutputDriver D → Option (OutputDriver D)
  calculate_latency ramp s = elim s.initialized [
    | false ↦ some s
    | true ↦ elim s.is_invalid [
      | true ↦ some (record s { figures = with_latency huge huge s.figures })
      | false ↦ latency_of s.num_stage ramp s
    ]
  ]

  unfoldable pub stages_leakage : ℕ → ℕ → OutputDriver D → D → Option D
  unfolding stage
  stages_leakage zero i s total = some total
  stages_leakage (suc n) i s total = do
    gate ← stage i (whole 0) s
    leakage ← calculate_gate_leakage gate g.input.temperature g.tech
    stages_leakage n (suc i) s (total ⊕ leakage ⊗ g.tech.vdd)

  unfoldable pub stages_energy : ℕ → ℕ → OutputDriver D → D → Option D
  unfolding read
  stages_energy zero i s total = some total
  stages_energy (suc n) i s total = do
    out ← read s.cap_output i
    next ← read s.cap_input (suc i)
    stages_energy n (suc i) s (total ⊕ (out ⊕ next) ⊗ g.tech.vdd ⊗ g.tech.vdd)

  abbrev pub power_of : ℕ → OutputDriver D → Option (OutputDriver D)
  power_of zero s = none
  power_of (suc i) s = do
    leakage ← stages_leakage (suc i) 0 s (whole 0)
    inner ← stages_energy i 0 s (whole 0)
    out ← read s.cap_output i
    let energy = inner ⊕ (out ⊕ s.output_cap) ⊗ g.tech.vdd ⊗ g.tech.vdd
    some (record s { figures = with_power energy energy leakage s.figures })

  unfoldable pub calculate_power : OutputDriver D → Option (OutputDriver D)
  calculate_power s = elim s.initialized [
    | false ↦ some s
    | true ↦ elim s.is_invalid [
      | true ↦ some (record s { figures = with_power huge huge huge s.figures })
      | false ↦ power_of s.num_stage s
    ]
  ]
