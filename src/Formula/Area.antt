-- ===== src/Formula/Area.antt =====
-- formula.cpp: CalculateGateArea, with the constants of constant.h.
use nvsim.Shared.{ℕ, ◌&&◌, if◌then◌else◌, ℤ, pos, minus}
use nvsim.Double.{Double, ◌⊕◌, ◌⊖◌, ◌⊗◌, ◌⊘◌, ◌≺◌, whole, max_d}
use nvsim.Technology.State.{Technology}

-- INV, NOR and NAND; another number is no gate.
pub data GateType : Type 0 where
  inv nor nand : GateType
  no_gate : ℕ → GateType

-- The argument list that the functions on a gate share.
pub record Gate (D : Type 0) : Type 0 where
  pub gate_type : GateType
  pub num_input : ℕ
  pub width_nmos : D
  pub width_pmos : D
  pub height_transistor_region : D

pub record Footprint (D : Type 0) : Type 0 where
  pub height : D
  pub width : D
  pub area : D

module _ {D : Type 0} ⦃d : Double D⦄ where
  abbrev pub zero_d : D
  zero_d = whole 0

  -- MIN_GAP_BET_P_AND_N_DIFFS, MIN_GAP_BET_POLY, MIN_GAP_BET_CONTACT_POLY, CONTACT_SIZE,
  -- MIN_WIDTH_POWER_RAIL.
  abbrev pub gap_p_n : D
  gap_p_n = whole 2

  abbrev pub gap_poly : D
  gap_poly = d.decimal 15 1

  abbrev pub gap_contact_poly : D
  gap_contact_poly = d.decimal 75 2

  abbrev pub contact_size : D
  contact_size = whole 1

  abbrev pub power_rail : D
  power_rail = whole 2

  -- The largest widths of an unfolded PMOS and NMOS transistor.
  unfoldable pub max_widths : Gate D → Technology D → D × D
  max_widths g tech =
      let ratio = g.width_pmos ⊘ (g.width_pmos ⊕ g.width_nmos) in
      if d.eq ratio (whole 0)
      then (whole 0, g.height_transistor_region)
      else if d.eq ratio (whole 1)
      then (g.height_transistor_region, whole 0)
      else (let p = ratio ⊗ (g.height_transistor_region ⊖ gap_p_n ⊗ tech.feature_size) in
          (p, p ⊘ ratio ⊗ (whole 1 ⊖ ratio)))

  -- `(int)(ceil(width / (maxWidth - 3F)))`.
  abbrev pub num_folded : D → D → Technology D → ℤ
  num_folded width max_width tech =
      d.trunc (d.ceil (width ⊘ (max_width ⊖ whole 3 ⊗ tech.feature_size)))

  -- The width of one transistor's region and its height.
  abbrev unit_region : D → D → Technology D → D × D
  unit_region width max_width tech =
      if whole 0 ≺ width
      then (if width ≺ max_width then (tech.feature_size, width) else (
        d.of_int (num_folded width max_width tech) ⊗ tech.feature_size
            ⊕ d.of_int (minus (num_folded width max_width tech) 1) ⊗ tech.feature_size ⊗ gap_poly,
        max_width,
      ))
      else (whole 0, whole 0)

  -- `(CONTACT_SIZE + MIN_GAP_BET_CONTACT_POLY * 2)`.
  abbrev pub contact : D
  contact = contact_size ⊕ gap_contact_poly ⊗ whole 2

  abbrev ends : Technology D → D
  ends tech = whole 2 ⊗ tech.feature_size ⊗ contact

  -- `(numInput - 1)`.
  abbrev pub inner : ℕ → D
  inner n = d.of_int (minus (pos n) 1)

  -- The transistors of all inputs in series, and in parallel.
  abbrev in_series : D → ℕ → Technology D → D
  in_series unit n tech = ends tech ⊕ unit ⊗ whole n ⊕ inner n ⊗ tech.feature_size ⊗ gap_poly

  abbrev in_parallel : D → ℕ → Technology D → D
  in_parallel unit n tech = ends tech ⊕ unit ⊗ whole n ⊕ inner n ⊗ tech.feature_size ⊗ contact

  -- The widths of the PMOS and of the NMOS region.
  abbrev region_widths : GateType → ℕ → D → D → Technology D → D × D
  region_widths inv n unit_p unit_n tech = (ends tech ⊕ unit_p, ends tech ⊕ unit_n)
  region_widths nor n unit_p unit_n tech = (in_series unit_p n tech, in_parallel unit_n n tech)
  region_widths nand n unit_p unit_n tech = (in_parallel unit_p n tech, in_series unit_n n tech)
  region_widths (no_gate k) n unit_p unit_n tech = (whole 0, whole 0)

  unfoldable pub calculate_gate_area : Gate D → Technology D → Footprint D
  calculate_gate_area g tech =
      let most = max_widths g tech in
      let p = unit_region g.width_pmos most.0 tech in
      let n = unit_region g.width_nmos most.1 tech in
      let widths = region_widths g.gate_type g.num_input p.0 n.0 tech in
      let width = max_d widths.1 widths.0 in
      let height =
        if (whole 0 ≺ g.width_pmos) && (whole 0 ≺ g.width_nmos)
        then n.1 ⊕ p.1 ⊕ tech.feature_size ⊗ gap_p_n ⊕ whole 2 ⊗ tech.feature_size ⊗ power_rail
        else n.1 ⊕ p.1 in
      record { height = height; width = width; area = width ⊗ height }
