-- ===== src/Circuit/Idle.antt =====
-- RowDecoder.cpp: how RowDecoder::Initialize ends, and what the other operations do then.
use nvsim.Shared.{
  ◌≡◌, refl, sym, ap, ◌∙◌, subst, true, false, not, Bool-cases, inl, inr, some, bind_inv,
  some_injective,
}
use nvsim.Double.{Double}
use nvsim.Globals.{Globals}
use nvsim.Driver.Widths
use nvsim.Driver.Widths.{OutputDriver}
use nvsim.Circuit.RowDecoder.{
  Decoder, DecoderRequest, initialize, with_driver, driver_request, nand_of, nand_inputs,
  calculate_area, calculate_rc, calculate_latency, calculate_power,
}

module _ {D : Type 0} ⦃d : Double D⦄ (g : Globals D) where
  -- The other operations leave the decoder as it is.
  abbrev pub IsIdle : Decoder D → Type 0
  IsIdle t =
      (calculate_area g t ≡ some t)
      × (calculate_rc g t ≡ some t)
      × ((ramp : D) → calculate_latency g ramp t ≡ some t)
      × (calculate_power g t ≡ some t)

  idle : (t : Decoder D) → t.initialized ≡ false → IsIdle t
  unfolding calculate_area calculate_rc calculate_latency calculate_power
  idle t e = (
    simp (calculate_area, e) refl,
    simp (calculate_rc, e) refl,
    λ ramp. simp (calculate_latency, e) refl,
    simp (calculate_power, e) refl,
  )

  -- The decoder is valid just where its driver is, and just then it is initialized.
  abbrev pub Follows : Decoder D → Type 0
  Follows t =
      (t.is_invalid ≡ t.output_driver.is_invalid) × (t.initialized ≡ not t.output_driver.is_invalid)

  with_driver-Follows :
      (r : DecoderRequest D) (s : Decoder D) (driver : OutputDriver D)
      → s.initialized ≡ false
      → s.is_invalid ≡ false
      → Follows (with_driver g r s driver)
  with_driver-Follows r s driver fresh valid = elim (Bool-cases driver.is_invalid) [
    | inl p ↦ simp (p, fresh, valid) (refl, refl)
    | inr p ↦ simp (p, fresh, valid) (refl, refl)
  ]

  -- After Initialize of a fresh row decoder it is invalid just where its driver is, and initialized
  -- otherwise; an invalid one is left as it is by every other operation.
  pub initialize-Follows :
      (r : DecoderRequest D) (s t : Decoder D)
      → initialize g r s ≡ some t
      → s.initialized ≡ false
      → s.is_invalid ≡ false
      → Follows t × (t.is_invalid ≡ true → IsIdle t)
  unfolding initialize
  initialize-Follows r s t e fresh valid =
      let parts =
        bind_inv
          (Widths.initialize g
            (driver_request g r (nand_of g (nand_inputs r.num_row r.multiple_row_per_set)))
            s.output_driver)
          (λ driver. some (with_driver g r s driver)) t e in
      let follows =
        subst Follows (some_injective parts.2) (with_driver-Follows r s parts.0 fresh valid) in
      (follows, λ bad. idle t (follows.1 ∙ ap not (sym follows.0 ∙ bad)))
