-- ===== src/Driver/Flags.antt =====
-- OutputDriver.cpp: how OutputDriver::Initialize ends, and what the other operations do then.
use nvsim.Shared.{
  ℕ, zero, suc, ◌≡◌, refl, sym, ap, ◌∙◌, subst, true, false, not, Bool-cases, inl, inr, some,
  bind_inv, some_injective, none≢some,
}
use nvsim.Types.{BufferDesignTarget}
use nvsim.Double.{Double, ◌≺◌, max_d}
use nvsim.Technology.State.{write}
use nvsim.Globals.{Globals, min_nmos, max_nmos}
use nvsim.Driver.Widths.{
  OutputDriver, DriverRequest, min_driver_width, write_widths, narrower, taper, last_width,
  trade_off, trade_off_inv, latency_first_stages, stages_of, one_stage, requested, rejected,
  accepted, designed, initialize_from, initialize,
}
use nvsim.Driver.Figures.{calculate_area, calculate_rc, calculate_latency, calculate_power}

module _ {D : Type 0} ⦃d : Double D⦄ (g : Globals D) where
  -- Neither flag is set, and just one of them.
  abbrev pub Fresh : OutputDriver D → Type 0
  Fresh s = (s.initialized ≡ false) × (s.is_invalid ≡ false)

  abbrev pub Settled : OutputDriver D → Type 0
  Settled t = t.initialized ≡ not t.is_invalid

  taper-is_invalid :
      (n : ℕ) (f : D) (s : OutputDriver D) → (taper g n f s).is_invalid ≡ s.is_invalid
  unfolding taper
  taper-is_invalid zero f s = refl
  taper-is_invalid (suc n) f s =
      taper-is_invalid n f (write_widths g n (narrower g f (s.width_nmos (suc n))) s)

  trade_off-is_invalid :
      (r : DriverRequest D) (least : D) (s t : OutputDriver D)
      → trade_off g r least s ≡ some t
      → t.is_invalid ≡ s.is_invalid
  trade_off-is_invalid r least s t e =
      ap OutputDriver.is_invalid (sym (trade_off_inv g r least s t e).1) ∙ taper-is_invalid _ _ _

  stages_of-is_invalid :
      (r : DriverRequest D) (least : D) (s t : OutputDriver D) (n : ℕ)
      → stages_of g r least s n ≡ some t
      → t.is_invalid ≡ s.is_invalid
  unfolding stages_of
  stages_of-is_invalid r least s t zero e = absurd (none≢some e)
  stages_of-is_invalid r least s t (suc i) e =
      let last = last_width g r (suc i) in
      let u = record s { num_stage = suc i } in
      elim (Bool-cases (last.0 ≺ least)) [
        | inl p ↦
            let v = record u { width_nmos = write s.width_nmos i last.0 } in
            let same : stages_of g r least s (suc i) ≡ trade_off g r least v =
              rw (stages_of, p) refl in
            trade_off-is_invalid r least v t (sym same ∙ e)
        | inr p ↦
            let same : stages_of g r least s (suc i)
                ≡ some (taper g i last.1 (write_widths g i last.0 u)) =
              rw (stages_of, p) refl in
            ap OutputDriver.is_invalid (some_injective (sym e ∙ same))
            ∙ taper-is_invalid i last.1 (write_widths g i last.0 u)
      ]

  latency_first_stages-is_invalid :
      (r : DriverRequest D) (least : D) (s t : OutputDriver D)
      → latency_first_stages g r least s ≡ some t
      → t.is_invalid ≡ s.is_invalid
  unfolding latency_first_stages
  latency_first_stages-is_invalid r least s t e = stages_of-is_invalid r least s t _ e

  settle : (u t : OutputDriver D) → some (accepted g u) ≡ some t → u.is_invalid ≡ false → Settled t
  settle u t e h = subst Settled (some_injective e) (sym (ap not h))

  one_stage-Settled : (least : D) (s : OutputDriver D) → Fresh s → Settled (one_stage g least s)
  unfolding one_stage
  one_stage-Settled least s h = elim (Bool-cases (max_nmos g ≺ max_d (min_nmos g) least)) [
    | inl p ↦ rw (one_stage, p) h.0
    | inr p ↦ rw (one_stage, p) (rw h.1 refl)
  ]

  designed-Settled :
      (target : BufferDesignTarget) (r : DriverRequest D) (least : D) (s t : OutputDriver D)
      → designed g target r least s ≡ some t
      → Fresh s
      → Settled t
  designed-Settled BufferDesignTarget.latency_first r least s t e h =
      let parts = bind_inv (latency_first_stages g r least s) (λ u. some (accepted g u)) t e in
      settle parts.0 t parts.2 (latency_first_stages-is_invalid r least s parts.0 parts.1 ∙ h.1)
  designed-Settled BufferDesignTarget.latency_area_trade_off r least s t e h =
      let parts = bind_inv (trade_off g r least s) (λ u. some (accepted g u)) t e in
      settle parts.0 t parts.2 (trade_off-is_invalid r least s parts.0 parts.1 ∙ h.1)
  designed-Settled BufferDesignTarget.area_first r least s t e h =
      subst Settled (some_injective e) (one_stage-Settled least s h)

  initialize_from-Settled :
      (least : D) (r : DriverRequest D) (s t : OutputDriver D)
      → initialize_from g least r s ≡ some t
      → Fresh s
      → Settled t
  unfolding initialize_from
  initialize_from-Settled least r s t e h = elim (Bool-cases (max_nmos g ≺ least)) [
    | inl p ↦
        let same : initialize_from g least r s ≡ some (rejected g (requested g r s)) =
          rw (initialize_from, p) refl in
        subst Settled (some_injective (sym same ∙ e)) h.0
    | inr p ↦
        let same : initialize_from g least r s
            ≡ designed g r.area_optimization_level r least (requested g r s) =
          rw (initialize_from, p) refl in
        designed-Settled r.area_optimization_level r least (requested g r s) t (sym same ∙ e) h
  ]

  pub initialize-Settled :
      (r : DriverRequest D) (s t : OutputDriver D) → initialize g r s ≡ some t → Fresh s → Settled t
  unfolding initialize
  initialize-Settled r s t e h =
      let parts = bind_inv (min_driver_width g r) (λ least. initialize_from g least r s) t e in
      initialize_from-Settled parts.0 r s t parts.2 h

  -- The other operations leave the driver as it is.
  abbrev pub IsIdle : OutputDriver D → Type 0
  IsIdle t =
      (calculate_area g t ≡ some t)
      × (calculate_rc g t ≡ some t)
      × ((ramp : D) → calculate_latency g ramp t ≡ some t)
      × (calculate_power g t ≡ some t)

  idle : (t : OutputDriver D) → t.initialized ≡ false → IsIdle t
  unfolding calculate_area calculate_rc calculate_latency calculate_power
  idle t e = (
    simp (calculate_area, e) refl,
    simp (calculate_rc, e) refl,
    λ ramp. simp (calculate_latency, e) refl,
    simp (calculate_power, e) refl,
  )

  -- After Initialize of a fresh driver just one of both flags is set; where it is `invalid`, every other
  -- operation leaves the driver as it is, so that none of its figures becomes 1e41.
  pub initialize-IsIdle :
      (r : DriverRequest D) (s t : OutputDriver D)
      → initialize g r s ≡ some t
      → Fresh s
      → Settled t × (t.is_invalid ≡ true → IsIdle t)
  initialize-IsIdle r s t e h =
      let settled = initialize-Settled r s t e h in (settled, λ bad. idle t (settled ∙ ap not bad))
