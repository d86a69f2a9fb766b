-- ===== src/Formula/Device.antt =====
-- formula.cpp: leakage, resistances, the transconductance, the delay of a gate, and wires.
use nvsim.Shared.{ℕ, ◌-◌, ◌==◌, leb, if◌then◌else◌, Option, none, some}
use nvsim.Double.{Double, ◌⊕◌, ◌⊖◌, ◌⊗◌, ◌⊘◌, whole, max_d, min_d}
use nvsim.Technology.State.{Technology}
use nvsim.Formula.Area.{GateType, Gate}
use nvsim.Formula.Capacitance.{Channel, nmos, pmos}

-- The cross-section of a wire and its surroundings.
pub record WireShape (D : Type 0) : Type 0 where
  pub wire_width : D
  pub wire_thickness : D
  pub wire_spacing : D
  pub ild_thickness : D
  pub miller_value : D
  pub horizontal_dielectric : D
  pub vertical_dielectric : D
  pub fringe_cap : D

-- The index of a whole temperature in kelvin in the arrays; outside of them the source exits.
unfoldable pub temp_index : ℕ → Option ℕ
temp_index temperature =
    if leb 300 temperature
    then (if leb temperature 400 then some (temperature - 300) else none)
    else none

module _ {D : Type 0} ⦃d : Double D⦄ where
  abbrev leakage_n : Gate D → ℕ → Technology D → D
  leakage_n g i tech = g.width_nmos ⊗ tech.current_off_nmos i

  abbrev leakage_p : Gate D → ℕ → Technology D → D
  leakage_p g i tech = g.width_pmos ⊗ tech.current_off_pmos i

  abbrev leakage_at : GateType → Gate D → Technology D → ℕ → D
  leakage_at GateType.inv g tech i = max_d (leakage_n g i tech) (leakage_p g i tech)
  leakage_at GateType.nor g tech i =
      (if g.num_input == 2 then d.decimal 95 2 else d.decimal 62 2)
      ⊗ (leakage_n g i tech ⊗ whole g.num_input)
  leakage_at GateType.nand g tech i =
      (if g.num_input == 2 then d.decimal 48 2 else d.decimal 31 2)
      ⊗ (leakage_p g i tech ⊗ whole g.num_input)
  leakage_at (GateType.no_gate k) g tech i = d.decimal 0 1

  unfoldable pub calculate_gate_leakage : Gate D → ℕ → Technology D → Option D
  calculate_gate_leakage g temperature tech = elim (temp_index temperature) [
    | none ↦ none
    | some i ↦ some (leakage_at g.gate_type g tech i)
  ]

  abbrev current_on : Channel → Technology D → ℕ → D
  current_on nmos tech i = tech.current_on_nmos i
  current_on pmos tech i = tech.current_on_pmos i

  unfoldable pub calculate_on_resistance : D → Channel → ℕ → Technology D → Option D
  calculate_on_resistance width channel temperature tech = elim (temp_index temperature) [
    | none ↦ none
    | some i ↦
        some (tech.effective_resistance_multiplier ⊗ tech.vdd ⊘ (current_on channel tech i ⊗ width))
  ]

  unfoldable pub calculate_transconductance : D → Channel → Technology D → D
  calculate_transconductance width nmos tech =
      tech.effective_electron_mobility
      ⊗ tech.cap_ox
      ⊘ whole 2
      ⊗ width
      ⊘ tech.phy_gate_length
      ⊗ min_d tech.vdsat_nmos (tech.vdd ⊖ tech.vth)
  calculate_transconductance width pmos tech =
      tech.effective_hole_mobility
      ⊗ tech.cap_ox
      ⊘ whole 2
      ⊗ width
      ⊘ tech.phy_gate_length
      ⊗ min_d tech.vdsat_pmos (tech.vdd ⊖ tech.vth)

  -- The delay, and the ramp of the output.
  unfoldable pub horowitz : D → D → D → D × D
  horowitz tr beta ramp_input =
      let alpha = whole 1 ⊘ ramp_input ⊘ tr in
      let vs = d.decimal 5 1 in
      let result = tr ⊗ d.sqrt (d.log vs ⊗ d.log vs ⊕ whole 2 ⊗ alpha ⊗ beta ⊗ (whole 1 ⊖ vs)) in
      (result, (whole 1 ⊖ vs) ⊘ result)

  unfoldable pub calculate_wire_resistance : D → D → D → D → D → D → D
  calculate_wire_resistance resistivity wire_width wire_thickness barrier dishing alpha_scatter =
      alpha_scatter
      ⊗ resistivity
      ⊘ (wire_thickness ⊖ barrier ⊖ dishing)
      ⊘ (wire_width ⊖ whole 2 ⊗ barrier)

  unfoldable pub calculate_wire_capacitance : D → WireShape D → D
  calculate_wire_capacitance permittivity w =
      whole 2 ⊗ permittivity ⊗ w.vertical_dielectric ⊗ w.wire_width ⊘ w.ild_thickness
      ⊕ whole 2
        ⊗ permittivity
        ⊗ w.miller_value
        ⊗ w.horizontal_dielectric
        ⊗ w.wire_thickness
        ⊘ w.wire_spacing
      ⊕ w.fringe_cap
