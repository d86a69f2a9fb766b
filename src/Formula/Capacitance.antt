-- ===== src/Formula/Capacitance.antt =====
-- formula.cpp: CalculateGateCap and its variants, CalculateGateCapacitance and CalculateDrainCap.
use nvsim.Shared.{ℕ, ◌%◌, ◌==◌, Bool, if◌then◌else◌, ℤ, pos, negsuc, minus, Option, none, some}
use nvsim.Double.{Double, ◌⊕◌, ◌⊗◌, ◌⊘◌, ◌≺◌, whole}
use nvsim.Technology.State.{Technology}
use nvsim.Formula.Area.{GateType, Gate, max_widths, num_folded, gap_poly, contact, inner}

-- Whether a transistor is NMOS, the number 0, or any other.
pub data Channel : Type 0 where
  nmos pmos : Channel

-- One kind of transistor in a gate: how often it is folded, the drain's overhead and its height.
pub record Folds (D : Type 0) : Type 0 where
  pub num_folded : ℤ
  pub unit_width_drain : D
  pub height_drain : D

pub record GateCapacitance (D : Type 0) : Type 0 where
  pub cap_input : D
  pub cap_output : D

abbrev is_even : ℤ → Bool
is_even (pos n) = n % 2 == 0
is_even (negsuc n) = n % 2 == 1

module _ {D : Type 0} ⦃d : Double D⦄ where
  unfoldable pub calculate_gate_cap : D → Technology D → D
  calculate_gate_cap width tech =
      (tech.cap_ideal_gate ⊕ tech.cap_overlap ⊕ whole 3 ⊗ tech.cap_fringe) ⊗ width
      ⊕ tech.phy_gate_length ⊗ tech.cap_polywire

  unfoldable pub calculate_fbram_gate_cap : D → D → Technology D → D
  calculate_fbram_gate_cap width thickness_factor tech =
      (tech.cap_ideal_gate ⊘ thickness_factor ⊕ tech.cap_overlap ⊕ whole 3 ⊗ tech.cap_fringe)
        ⊗ width
      ⊕ tech.phy_gate_length ⊗ tech.cap_polywire

  unfoldable pub calculate_fbram_drain_cap : D → Technology D → D
  calculate_fbram_drain_cap width tech =
      (whole 3 ⊗ tech.cap_sidewall ⊕ tech.cap_drain_to_channel) ⊗ width

  -- The source exits where a transistor is to be folded that has no room for the overhead: `none`.
  unfoldable pub fold : D → D → Technology D → Option (Folds D)
  fold width max_width tech =
      if whole 0 ≺ width
      then (if width ≺ max_width
          then some
              (record { num_folded = pos 1; unit_width_drain = whole 0; height_drain = width })
          else (if max_width ≺ whole 3 ⊗ tech.feature_size
              then none
              else some (record {
                num_folded = num_folded width max_width tech;
                unit_width_drain =
                    d.of_int (minus (num_folded width max_width tech) 1)
                    ⊗ tech.feature_size
                    ⊗ gap_poly;
                height_drain = max_width;
              })))
      else some (record { num_folded = pos 1; unit_width_drain = whole 0; height_drain = whole 0 })

  abbrev one_drain : D → Technology D → D
  one_drain unit tech = tech.feature_size ⊗ contact ⊕ unit

  -- The transistors of all inputs in series, and in parallel.
  abbrev series_drain : D → ℕ → Technology D → D
  series_drain unit n tech =
      tech.feature_size ⊗ contact ⊕ unit ⊗ whole n ⊕ inner n ⊗ tech.feature_size ⊗ gap_poly

  abbrev parallel_drain : D → ℕ → Technology D → D
  parallel_drain unit n tech = (tech.feature_size ⊗ contact ⊕ unit) ⊗ whole n

  abbrev width_drain_p : GateType → ℕ → D → Technology D → D
  width_drain_p GateType.inv n unit tech = one_drain unit tech
  width_drain_p GateType.nor n unit tech = series_drain unit n tech
  width_drain_p GateType.nand n unit tech = parallel_drain unit n tech
  width_drain_p (GateType.no_gate k) n unit tech = whole 0

  abbrev width_drain_n : GateType → ℕ → D → Technology D → D
  width_drain_n GateType.inv n unit tech = one_drain unit tech
  width_drain_n GateType.nor n unit tech = parallel_drain unit n tech
  width_drain_n GateType.nand n unit tech = series_drain unit n tech
  width_drain_n (GateType.no_gate k) n unit tech = whole 0

  abbrev drain_sidewall : Folds D → D → Technology D → D
  drain_sidewall f width tech =
      if is_even f.num_folded
      then whole 2 ⊗ width ⊗ tech.cap_sidewall
      else (whole 2 ⊗ width ⊕ f.height_drain) ⊗ tech.cap_sidewall

  abbrev with_folds : Gate D → Technology D → Folds D → Folds D → GateCapacitance D
  with_folds g tech p n =
      let width_p =
        if whole 0 ≺ g.width_pmos
        then width_drain_p g.gate_type g.num_input p.unit_width_drain tech
        else whole 0 in
      let width_n =
        if whole 0 ≺ g.width_nmos
        then width_drain_n g.gate_type g.num_input n.unit_width_drain tech
        else whole 0 in
      record {
        cap_output =
            width_n ⊗ n.height_drain ⊗ tech.cap_junction
            ⊕ width_p ⊗ p.height_drain ⊗ tech.cap_junction
            ⊕ drain_sidewall n width_n tech
            ⊕ drain_sidewall p width_p tech
            ⊕ d.of_int n.num_folded ⊗ n.height_drain ⊗ tech.cap_drain_to_channel
            ⊕ d.of_int p.num_folded ⊗ p.height_drain ⊗ tech.cap_drain_to_channel;
        cap_input = calculate_gate_cap g.width_nmos tech ⊕ calculate_gate_cap g.width_pmos tech;
      }

  unfoldable pub calculate_gate_capacitance : Gate D → Technology D → Option (GateCapacitance D)
  calculate_gate_capacitance g tech = elim (fold g.width_pmos (max_widths g tech).0 tech) [
    | none ↦ none
    | some p ↦ elim (fold g.width_nmos (max_widths g tech).1 tech) [
      | none ↦ none
      | some n ↦ some (with_folds g tech p n)
    ]
  ]

  -- An inverter of two transistors.
  abbrev pub inverter : D → D → D → Gate D
  inverter nmos_size pmos_size height = record {
    gate_type = GateType.inv;
    num_input = 1;
    width_nmos = nmos_size;
    width_pmos = pmos_size;
    height_transistor_region = height;
  }

  -- A transistor on its own.
  abbrev pub single : Channel → D → D → Gate D
  single nmos width height = inverter width (whole 0) height
  single pmos width height = inverter (whole 0) width height

  abbrev output_of : Option (GateCapacitance D) → Option D
  output_of none = none
  output_of (some c) = some c.cap_output

  unfoldable pub calculate_drain_cap : D → Channel → D → Technology D → Option D
  calculate_drain_cap width channel height tech =
      output_of (calculate_gate_capacitance (single channel width height) tech)
