-- ===== src/Driver/Defined.antt =====
-- OutputDriver.cpp: CalculateArea, CalculateLatency and CalculatePower of a driver that Initialize
-- and CalculateRC leave.
use nvsim.Shared.{
  ℕ, zero, suc, ◌+◌, ◌<◌, ◌≤◌, lt→ltb, ◌≡◌, refl, sym, ap, ◌∙◌, subst, false, Bool-cases,
  Option-cases, inl, inr, none, some, bind_inv, some_injective, none≢some, Defined, bind-Defined,
  arith,
}
use nvsim.Driver.{max_chain}
use nvsim.Double.{Double, IsStrictOrder, whole}
use nvsim.Globals.{Globals, on_current, transistor_height}
use nvsim.Formula.{
  Channel, Gate, temp_index, calculate_on_resistance, calculate_gate_leakage,
  calculate_gate_capacitance,
}
use nvsim.Driver.Widths.{OutputDriver, DriverRequest, min_driver_width, initialize}
use nvsim.Driver.Strength.{initialize-IsStrong}
use nvsim.Driver.Figures.{
  read, stage, stages_area, stages_energy, calculate_area, with_caps, stages_rc, rc_of, latency_of,
  power_of, calculate_rc, stages_latency, calculate_latency, stages_leakage, calculate_power,
}

read-Defined : {D : Type 0} (a : ℕ → D) (i : ℕ) → i < max_chain → Defined (read a i)
unfolding read
read-Defined a i h = rw (lt→ltb i max_chain h) (_, refl)

module _ {D : Type 0} ⦃d : Double D⦄ (g : Globals D) where
  stage-Defined :
      (i : ℕ) (height : D) (s : OutputDriver D) → i < max_chain → Defined (stage g i height s)
  unfolding stage
  stage-Defined i height s h =
      bind-Defined _ _ (read-Defined s.width_nmos i h)
        λ n. bind-Defined _ _ (read-Defined s.width_pmos i h) (λ p. (_, refl))

  stages_area-Defined :
      (n i : ℕ) (s : OutputDriver D) (x : D × D)
      → i + n ≤ max_chain
      → Defined (stages_area g n i s x)
  unfolding stages_area
  stages_area-Defined zero i s x h = (x, refl)
  stages_area-Defined (suc n) i s x h =
      bind-Defined _ _ (stage-Defined i _ s (omega arith))
        λ gate. stages_area-Defined n (suc i) s _ (omega arith)

  calculate_area-Defined :
      (s : OutputDriver D)
      → (s.is_invalid ≡ false → s.num_stage ≤ max_chain)
      → Defined (calculate_area g s)
  unfolding calculate_area
  calculate_area-Defined s stages = elim (Bool-cases s.initialized) [
    | inr p ↦ simp (calculate_area, p) (_, refl)
    | inl p ↦ elim (Bool-cases s.is_invalid) [
      | inl q ↦ simp (calculate_area, p, q) (_, refl)
      | inr q ↦
          let fits = stages q in
          simp (calculate_area, p, q)
            (bind-Defined _ _ (stages_area-Defined s.num_stage 0 s _ (omega arith))
              (λ total. (_, refl)))
    ]
  ]

  stages_energy-Defined :
      (n i : ℕ) (s : OutputDriver D) (x : D) → i + n < max_chain → Defined (stages_energy g n i s x)
  unfolding stages_energy
  stages_energy-Defined zero i s x h = (x, refl)
  stages_energy-Defined (suc n) i s x h =
      bind-Defined _ _ (read-Defined s.cap_output i (omega arith)) λ out.
        bind-Defined _ _ (read-Defined s.cap_input (suc i) (omega arith))
          λ next. stages_energy-Defined n (suc i) s _ (omega arith)

module _ {D : Type 0} ⦃d : Double D⦄ (g : Globals D) (index : ℕ)
    (at : temp_index g.input.temperature ≡ some index) where
  calculate_on_resistance-Defined :
      (x : D) (channel : Channel)
      → Defined (calculate_on_resistance x channel g.input.temperature g.tech)
  unfolding calculate_on_resistance
  calculate_on_resistance-Defined x channel = rw (calculate_on_resistance, at) (_, refl)

  calculate_gate_leakage-Defined :
      (x : Gate D) → Defined (calculate_gate_leakage x g.input.temperature g.tech)
  unfolding calculate_gate_leakage
  calculate_gate_leakage-Defined x = rw (calculate_gate_leakage, at) (_, refl)

  stages_latency-Defined :
      (n i : ℕ) (s : OutputDriver D) (x : D × D)
      → i + n < max_chain
      → Defined (stages_latency g n i s x)
  unfolding stages_latency
  stages_latency-Defined zero i s x h = (x, refl)
  stages_latency-Defined (suc n) i s x h =
      bind-Defined _ _ (read-Defined s.width_nmos i (omega arith)) λ width.
        bind-Defined _ _ (calculate_on_resistance-Defined _ _) λ res.
          bind-Defined _ _ (read-Defined s.cap_output i (omega arith)) λ out.
            bind-Defined _ _ (read-Defined s.cap_input (suc i) (omega arith))
              λ next. stages_latency-Defined n (suc i) s _ (omega arith)

  stages_leakage-Defined :
      (n i : ℕ) (s : OutputDriver D) (x : D)
      → i + n ≤ max_chain
      → Defined (stages_leakage g n i s x)
  unfolding stages_leakage
  stages_leakage-Defined zero i s x h = (x, refl)
  stages_leakage-Defined (suc n) i s x h =
      bind-Defined _ _ (stage-Defined g i (whole 0) s (omega arith)) λ gate.
        bind-Defined _ _ (calculate_gate_leakage-Defined _)
          λ leakage. stages_leakage-Defined n (suc i) s _ (omega arith)

  latency_of-Defined :
      (n : ℕ) (ramp : D) (s : OutputDriver D)
      → (0 < n) × (n ≤ max_chain)
      → Defined (latency_of g n ramp s)
  latency_of-Defined zero ramp s h = absurd (omega arith)
  latency_of-Defined (suc i) ramp s h =
      bind-Defined _ _ (stages_latency-Defined i 0 s _ (omega arith)) λ x.
        bind-Defined _ _ (read-Defined s.width_nmos i (omega arith)) λ width.
          bind-Defined _ _ (calculate_on_resistance-Defined _ _)
            λ res. bind-Defined _ _ (read-Defined s.cap_output i (omega arith)) (λ out. (_, refl))

  power_of-Defined :
      (n : ℕ) (s : OutputDriver D) → (0 < n) × (n ≤ max_chain) → Defined (power_of g n s)
  power_of-Defined zero s h = absurd (omega arith)
  power_of-Defined (suc i) s h =
      bind-Defined _ _ (stages_leakage-Defined (suc i) 0 s _ (omega arith)) λ leakage.
        bind-Defined _ _ (stages_energy-Defined g i 0 s _ (omega arith))
          λ inner. bind-Defined _ _ (read-Defined s.cap_output i (omega arith)) (λ out. (_, refl))

  calculate_latency-Defined :
      (ramp : D) (s : OutputDriver D)
      → (s.is_invalid ≡ false → (0 < s.num_stage) × (s.num_stage ≤ max_chain))
      → Defined (calculate_latency g ramp s)
  unfolding calculate_latency
  calculate_latency-Defined ramp s stages = elim (Bool-cases s.initialized) [
    | inr p ↦ simp (calculate_latency, p) (_, refl)
    | inl p ↦ elim (Bool-cases s.is_invalid) [
      | inl q ↦ simp (calculate_latency, p, q) (_, refl)
      | inr q ↦ simp (calculate_latency, p, q) (latency_of-Defined s.num_stage ramp s (stages q))
    ]
  ]

  calculate_power-Defined :
      (s : OutputDriver D)
      → (s.is_invalid ≡ false → (0 < s.num_stage) × (s.num_stage ≤ max_chain))
      → Defined (calculate_power g s)
  unfolding calculate_power
  calculate_power-Defined s stages = elim (Bool-cases s.initialized) [
    | inr p ↦ simp (calculate_power, p) (_, refl)
    | inl p ↦ elim (Bool-cases s.is_invalid) [
      | inl q ↦ simp (calculate_power, p, q) (_, refl)
      | inr q ↦ simp (calculate_power, p, q) (power_of-Defined s.num_stage s (stages q))
    ]
  ]

module _ {D : Type 0} ⦃d : Double D⦄ (g : Globals D) where
  -- CalculateRC leaves the count of stages and the flag.
  abbrev Kept : OutputDriver D → OutputDriver D → Type 0
  Kept s t = (t.num_stage ≡ s.num_stage) × (t.is_invalid ≡ s.is_invalid)

  stages_rc-Kept : (n i : ℕ) (s t : OutputDriver D) → stages_rc g n i s ≡ some t → Kept s t
  unfolding stages_rc
  stages_rc-Kept zero i s t e = (
    ap (λ u. u.num_stage) (sym (some_injective e)),
    ap (λ u. u.is_invalid) (sym (some_injective e)),
  )
  stages_rc-Kept (suc n) i s t e =
      let gate = bind_inv (stage g i (transistor_height g) s) _ t e in
      let step =
        bind_inv (calculate_gate_capacitance gate.0 g.tech)
          (λ c. stages_rc g n (suc i) (with_caps g i c s)) t gate.2 in
      stages_rc-Kept n (suc i) (with_caps g i step.0 s) t step.2

  rc_of-Kept : (n : ℕ) (s t : OutputDriver D) → rc_of g n s ≡ some t → Kept s t
  rc_of-Kept zero s t e = (
    ap (λ u. u.num_stage) (sym (some_injective e)),
    ap (λ u. u.is_invalid) (sym (some_injective e)),
  )
  rc_of-Kept (suc n) s t e = stages_rc-Kept (suc n) 0 s t e

  same-Kept : (s t : OutputDriver D) → some s ≡ some t → Kept s t
  same-Kept s t e = subst (Kept s) (some_injective e) (refl, refl)

  calculate_rc-Kept : (s t : OutputDriver D) → calculate_rc g s ≡ some t → Kept s t
  unfolding calculate_rc
  calculate_rc-Kept s t e = elim (Bool-cases s.initialized) [
    | inr p ↦
        let is : calculate_rc g s ≡ some s = simp (calculate_rc, p) refl in
        same-Kept s t (sym is ∙ e)
    | inl p ↦ elim (Bool-cases s.is_invalid) [
      | inl q ↦
          let is : calculate_rc g s ≡ some s = simp (calculate_rc, p, q) refl in
          same-Kept s t (sym is ∙ e)
      | inr q ↦
          let is : calculate_rc g s ≡ rc_of g s.num_stage s = simp (calculate_rc, p, q) refl in
          rc_of-Kept s.num_stage s t (sym is ∙ e)
    ]
  ]

  temperature-Defined :
      (r : DriverRequest D) (least : D)
      → min_driver_width g r ≡ some least
      → Defined (temp_index g.input.temperature)
  unfolding min_driver_width on_current
  temperature-Defined r least e = elim (Option-cases (temp_index g.input.temperature)) [
    | inr found ↦ found
    | inl p ↦
        let current = bind_inv (on_current g) _ least e in
        let unset : on_current g ≡ none = rw (on_current, p) refl in
        absurd (none≢some (sym unset ∙ current.1))
  ]

  -- If `<` is a strict order, a driver that Initialize returns has an area, and one that CalculateRC returns after it has a
  -- latency for every ramp and a power: no loop over the stages reads past the 20 elements of the
  -- arrays or before them, and the temperature is within the tables.
  pub initialize-Defined :
      (order : IsStrictOrder d) (r : DriverRequest D) (s t u : OutputDriver D)
      → initialize g r s ≡ some t
      → calculate_rc g t ≡ some u
      → Defined (calculate_area g t)
        × ((ramp : D) → Defined (calculate_latency g ramp u))
        × Defined (calculate_power g u)
  unfolding initialize
  initialize-Defined order r s t u e f =
      let least = bind_inv (min_driver_width g r) _ t e in
      let at = temperature-Defined r least.0 least.1 in
      let kept = calculate_rc-Kept t u f in
      let strong = initialize-IsStrong g order r s t least.0 least.1 e in
      let stages : u.is_invalid ≡ false → (0 < u.num_stage) × (u.num_stage ≤ max_chain) = λ v.
        let is = strong (sym kept.1 ∙ v) in
        subst (λ n. (0 < n) × (n ≤ max_chain)) (sym kept.0) (is.some_stage, is.fits) in
      (
        calculate_area-Defined g t (λ v. (strong v).fits),
        λ ramp. calculate_latency-Defined g at.0 at.1 ramp u stages,
        calculate_power-Defined g at.0 at.1 u stages,
      )
