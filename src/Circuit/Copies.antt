-- ===== src/Circuit/Copies.antt =====
-- OutputDriver.cpp and Precharger.cpp: when the assignment makes a copy.
use nvsim.Shared.{◌≡◌, ◌↔◌, refl, ap}
use nvsim.Driver.Widths.{OutputDriver}
use nvsim.Driver.Figures
use nvsim.Circuit.Precharger.{Prechargers, assign}

module _ {D : Type 0} where
  abbrev pub SameArrays : OutputDriver D → OutputDriver D → Type 0
  SameArrays x y =
      (x.width_nmos ≡ y.width_nmos)
      × (x.width_pmos ≡ y.width_pmos)
      × (x.cap_input ≡ y.cap_input)
      × (x.cap_output ≡ y.cap_output)

  -- Assigning a driver to another one makes it equal for just the ones that have its arrays of widths
  -- and capacitances already.
  pub assign-copies_iff : (rhs s : OutputDriver D) → Figures.assign rhs s ≡ rhs ↔ SameArrays s rhs
  unfolding Figures.assign
  assign-copies_iff rhs s = (
    λ e. (
      ap (λ x. x.width_nmos) e,
      ap (λ x. x.width_pmos) e,
      ap (λ x. x.cap_input) e,
      ap (λ x. x.cap_output) e,
    ),
    λ h. simp (h.0, h.1, h.2, h.3) refl,
  )

  abbrev pub SameInverter : Prechargers D → Prechargers D → Type 0
  SameInverter x y =
      (x.voltage_precharge ≡ y.voltage_precharge)
      × (x.width_inv_nmos ≡ y.width_inv_nmos)
      × (x.width_inv_pmos ≡ y.width_inv_pmos)

  -- Assigning a precharger to another one makes it equal for just the ones that have its precharge
  -- voltage, its widths of the inverter and the arrays of its driver already.
  pub prechargers-copies_iff :
      (rhs s : Prechargers D)
      → assign rhs s ≡ rhs ↔ (SameInverter s rhs × SameArrays s.output_driver rhs.output_driver)
  unfolding assign
  prechargers-copies_iff rhs s = (
    λ e. (
      (ap (λ x. x.voltage_precharge) e, ap (λ x. x.width_inv_nmos) e, ap (λ x. x.width_inv_pmos) e),
      (assign-copies_iff rhs.output_driver s.output_driver).0 (ap (λ x. x.output_driver) e),
    ),
    λ h.
        let driver = (assign-copies_iff rhs.output_driver s.output_driver).1 h.1 in
        simp (h.0.0, h.0.1, h.0.2, driver) refl,
  )
