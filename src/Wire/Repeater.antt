-- ===== src/Wire/Repeater.antt =====
-- Wire.cpp: the figures of a repeated wire, findOptimalRepeater and findPenalizedRepeater.
use nvsim.Shared.{◌>>=◌, ℕ, zero, suc, Bool, true, false, ◌&&◌, if◌then◌else◌, Option, none, some}
use nvsim.Double.{Double, ◌⊕◌, ◌⊖◌, ◌⊗◌, ◌⊘◌, ◌≺◌, ◌≼◌, whole}
use nvsim.Formula.{
  inverter, nmos, pmos, calculate_gate_cap, calculate_drain_cap, calculate_on_resistance,
  calculate_gate_leakage,
}
use nvsim.Globals.{Globals, min_nmos}
use nvsim.Wire.State.{Wire}

-- The loads of an inverter of a given size.
pub record Repeater (D : Type 0) : Type 0 where
  pub input_cap : D
  pub output_cap : D
  pub output_res : D

-- What the search compares, for each metre.
pub record Figures (D : Type 0) : Type 0 where
  pub delay : D
  pub dynamic_energy : D
  pub leakage : D

-- The local variables of findPenalizedRepeater.
pub record Search (D : Type 0) : Type 0 where
  pub current_dynamic_energy : D
  pub current_leakage : D
  pub target_repeater_spacing : D
  pub target_repeater_size : D

module _ {D : Type 0} ⦃d : Double D⦄ (g : Globals D) where
  unfoldable pub repeater_caps : D → D → Option (D × D)
  repeater_caps nmos_size pmos_size = do
    let input_cap = calculate_gate_cap nmos_size g.tech ⊕ calculate_gate_cap pmos_size g.tech
    n ← calculate_drain_cap nmos_size nmos (whole 1) g.tech
    p ← calculate_drain_cap pmos_size pmos (whole 1) g.tech
    some (input_cap, n ⊕ p)

  unfoldable pub repeater_of : D → D → Option (Repeater D)
  repeater_of nmos_size pmos_size = do
    caps ← repeater_caps nmos_size pmos_size
    n ← calculate_on_resistance nmos_size nmos g.input.temperature g.tech
    p ← calculate_on_resistance pmos_size pmos g.input.temperature g.tech
    some (record { input_cap = caps.0; output_cap = caps.1; output_res = n ⊕ p })

  unfoldable pub find_optimal_repeater : Wire D → Option (Wire D)
  find_optimal_repeater w = do
    r ← repeater_of (min_nmos g) (min_nmos g ⊗ g.tech.pn_size_ratio)
    some (record w {
      repeater_size =
          d.sqrt (r.output_res ⊗ w.cap_wire_per_unit ⊘ r.input_cap ⊘ w.res_wire_per_unit);
      repeater_spacing = d.sqrt (
          whole 2
          ⊗ r.output_res
          ⊗ (r.output_cap ⊕ r.input_cap)
          ⊘ (w.res_wire_per_unit ⊗ w.cap_wire_per_unit));
    })

  -- The size of the repeater in metres.
  abbrev scaled : Wire D → D
  scaled w = min_nmos g ⊗ w.repeater_size

  unfoldable pub get_repeated_wire_unit_delay : Wire D → Option D
  get_repeated_wire_unit_delay w = do
    r ← repeater_of (scaled w) (scaled w ⊗ g.tech.pn_size_ratio)
    let wire_cap = w.cap_wire_per_unit ⊗ w.repeater_spacing
    let wire_res = w.res_wire_per_unit ⊗ w.repeater_spacing
    some (
        d.decimal 693 3
        ⊗ (r.output_res ⊗ (r.input_cap ⊕ r.output_cap)
            ⊕ r.output_res ⊗ wire_cap
            ⊕ wire_res ⊗ r.output_cap
            ⊕ d.decimal 5 1 ⊗ wire_res ⊗ wire_cap)
        ⊘ w.repeater_spacing)

  unfoldable pub get_repeated_wire_unit_dynamic_energy : Wire D → Option D
  get_repeated_wire_unit_dynamic_energy w = do
    caps ← repeater_caps (scaled w) (scaled w ⊗ g.tech.pn_size_ratio)
    let wire_cap = w.cap_wire_per_unit ⊗ w.repeater_spacing
    some (((caps.0 ⊕ caps.1 ⊕ wire_cap) ⊗ g.tech.vdd ⊗ g.tech.vdd ⊕ whole 0) ⊘ w.repeater_spacing)

  unfoldable pub get_repeated_wire_unit_leakage : Wire D → Option D
  get_repeated_wire_unit_leakage w = do
    leakage ←
        calculate_gate_leakage (inverter (scaled w) (scaled w ⊗ g.tech.pn_size_ratio) (whole 0))
          g.input.temperature g.tech
    some (leakage ⊗ g.tech.vdd ⊘ w.repeater_spacing)

  unfoldable pub figures : Wire D → Option (Figures D)
  figures w = do
    delay ← get_repeated_wire_unit_delay w
    energy ← get_repeated_wire_unit_dynamic_energy w
    leakage ← get_repeated_wire_unit_leakage w
    some (record { delay = delay; dynamic_energy = energy; leakage = leakage })

  -- The test in the loops' body.
  unfoldable pub is_better : D → Search D → Figures D → Bool
  is_better target s f =
      (f.delay ≼ target)
      && (f.dynamic_energy ⊘ s.current_dynamic_energy ⊕ f.leakage ⊘ s.current_leakage ≺ whole 2)

  -- The loops' body.
  unfoldable pub keep_better : D → Wire D → Search D → Figures D → Search D
  keep_better target w s f =
      if is_better target s f
      then record {
        current_dynamic_energy = f.dynamic_energy;
        current_leakage = f.leakage;
        target_repeater_spacing = w.repeater_spacing;
        target_repeater_size = w.repeater_size;
      }
      else s

  abbrev pub smaller : Wire D → Wire D
  smaller w = record w { repeater_size = w.repeater_size ⊖ whole 1 }

  -- The step of the spacing, 100 um.
  abbrev pub wider : Wire D → Wire D
  wider w = record w { repeater_spacing = w.repeater_spacing ⊕ d.decimal 100 6 }

  -- The inner loop, over the sizes, with fuel for its tests.
  unfoldable pub search_sizes : ℕ → D → Wire D → Search D → Option (Wire D × Search D)
  search_sizes zero target w s = none
  search_sizes (suc fuel) target w s = elim (whole 1 ≼ w.repeater_size) [
    | false ↦ some (w, s)
    | true ↦ do f ← figures w; search_sizes fuel target (smaller w) (keep_better target w s f)
  ]

  -- The outer loop, over the spacings.
  unfoldable pub search_spacings : ℕ → ℕ → D → D → Wire D → Search D → Option (Search D)
  search_spacings sizes zero end target w s = none
  search_spacings sizes (suc fuel) end target w s = elim (w.repeater_spacing ≼ end) [
    | false ↦ some s
    | true ↦ do
      r ← search_sizes sizes target w s
      search_spacings sizes fuel end target (wider r.0) r.1
  ]

  abbrev pub start_search : Wire D → Figures D → Search D
  start_search w f = record {
    current_dynamic_energy = f.dynamic_energy;
    current_leakage = f.leakage;
    target_repeater_spacing = w.repeater_spacing;
    target_repeater_size = w.repeater_size;
  }

  -- The fuel of the inner and of the outer loop comes first.
  unfoldable pub find_penalized_repeater : ℕ → ℕ → D → Wire D → Option (Wire D)
  find_penalized_repeater sizes spacings penalty w = do
    f ← figures w
    s ←
        search_spacings sizes spacings (whole 4 ⊗ w.repeater_spacing)
          (f.delay ⊗ (whole 1 ⊕ penalty)) w (start_search w f)
    some (record w {
      repeater_spacing = s.target_repeater_spacing;
      repeater_size = s.target_repeater_size;
    })
