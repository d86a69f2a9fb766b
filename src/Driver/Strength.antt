-- ===== src/Driver/Strength.antt =====
-- OutputDriver.cpp: the widths that OutputDriver::Initialize leaves.
use nvsim.Shared.{
  ℕ, zero, suc, ◌+◌, ◌-◌, ◌<◌, ◌≤◌, ◌≡◌, ◌≢◌, refl, Bool, true, false, Bool-cases, inl, inr, some,
  ◌∙◌, subst, sym, ap, some_injective, none≢some, bind_inv, arith,
}
use nvsim.Types.{BufferDesignTarget}
use native.Mathlib.Decide.{ℕ_discrete}
use nvsim.Technology.State.{write}
use nvsim.Double.{Double, IsStrictOrder, ◌⊘◌, ◌≺◌, max_d}
use nvsim.Driver.{max_chain, total_effort, ideal_stages, latency_chain, trade_off_chain}
use nvsim.Globals.{Globals, min_nmos, max_nmos}
use nvsim.Driver.Widths.{
  OutputDriver, DriverRequest, min_driver_width, write_widths, narrower, taper, last_width,
  trade_off, trade_off_stages, trade_off_inv, latency_first_stages, stages_of, one_stage, accepted,
  rejected, requested, designed, initialize_from, initialize,
}

module _ {D : Type 0} where
  write-at : (a : ℕ → D) (x : D) {i j : ℕ} → j ≡ i → write a i x j ≡ x
  write-at a x e = ground arith

  write-other : (a : ℕ → D) (x : D) {i j : ℕ} → j ≢ i → write a i x j ≡ a j
  write-other a x h = ground arith

trade_off_chain_pos : (inv : Bool) (n : ℕ) → 0 < (trade_off_chain inv n).num_stage
unfolding trade_off_chain
trade_off_chain_pos inv n = omega arith

latency_chain_le : (inv : Bool) (n : ℕ) → (latency_chain inv n).num_stage ≤ max_chain
unfolding latency_chain
latency_chain_le inv n = grind arith

module _ {D : Type 0} ⦃d : Double D⦄ (g : Globals D) (order : IsStrictOrder d) where
  narrower-wide : (f x : D) → (narrower g f x ≺ min_nmos g) ≡ false
  narrower-wide f x = elim (Bool-cases (x ⊘ f ≺ min_nmos g)) [
    | inl p ↦ rw p (order.irreflexive (min_nmos g))
    | inr p ↦ rw p p
  ]

  taper-later :
      (n : ℕ) (f : D) (s : OutputDriver D) (j : ℕ)
      → n < suc j
      → (taper g n f s).width_nmos j ≡ s.width_nmos j
  unfolding taper
  taper-later zero f s j h = refl
  taper-later (suc n) f s j h =
      taper-later n f (write_widths g n (narrower g f (s.width_nmos (suc n))) s) j (omega arith)
      ∙ write-other s.width_nmos (narrower g f (s.width_nmos (suc n))) (omega arith)

  taper-wide :
      (n : ℕ) (f : D) (s : OutputDriver D) (j : ℕ)
      → j < n
      → ((taper g n f s).width_nmos j ≺ min_nmos g) ≡ false
  unfolding taper
  taper-wide zero f s j h = absurd (omega arith)
  taper-wide (suc n) f s j h =
      let x = narrower g f (s.width_nmos (suc n)) in
      elim (ℕ_discrete j n) [
        | yes e ↦
            let at : (taper g n f (write_widths g n x s)).width_nmos j ≡ x =
              taper-later n f (write_widths g n x s) j (omega arith) ∙ write-at s.width_nmos x e in
            rw at (narrower-wide f (s.width_nmos (suc n)))
        | no ne ↦ taper-wide n f (write_widths g n x s) j (omega arith)
      ]

  taper-num_stage : (n : ℕ) (f : D) (s : OutputDriver D) → (taper g n f s).num_stage ≡ s.num_stage
  unfolding taper
  taper-num_stage zero f s = refl
  taper-num_stage (suc n) f s =
      taper-num_stage n f (write_widths g n (narrower g f (s.width_nmos (suc n))) s)

  -- The widths are within their arrays, the last inverter has at least the width that the current
  -- takes, and none before it is narrower than a transistor may be.
  pub record IsStrong (least : D) (t : OutputDriver D) : Type 0 where
    pub some_stage : 0 < t.num_stage
    pub fits : t.num_stage ≤ max_chain
    pub last : (t.width_nmos (t.num_stage - 1) ≺ least) ≡ false
    pub inner : (j : ℕ) → j + 1 < t.num_stage → (t.width_nmos j ≺ min_nmos g) ≡ false

  tapered-IsStrong :
      (i : ℕ) (f x least : D) (s : OutputDriver D)
      → (x ≺ least) ≡ false
      → s.num_stage ≡ i + 1
      → i < max_chain
      → IsStrong least (taper g i f (write_widths g i x s))
  tapered-IsStrong i f x least s h e room =
      let u = write_widths g i x s in
      let count : (taper g i f u).num_stage ≡ i + 1 = taper-num_stage i f u ∙ e in
      let before : (taper g i f u).num_stage - 1 ≡ i = omega (arith, count) in
      let end : (taper g i f u).width_nmos i ≡ x =
        taper-later i f u i (omega arith) ∙ write-at s.width_nmos x refl in
      record {
        some_stage = omega (arith, count);
        fits = omega (arith, count, room);
        last = rw (before, end) h;
        inner = λ j q. taper-wide i f u j (omega (arith, count));
      }

  trade_off-IsStrong :
      (r : DriverRequest D) (least : D) (s t : OutputDriver D)
      → trade_off g r least s ≡ some t
      → IsStrong least t
  trade_off-IsStrong r least s t e =
      let (room, same) = trade_off_inv g r least s t e in
      let n = trade_off_stages g r least in
      subst (IsStrong least) same (
        tapered-IsStrong (n - 1) _ least least (record s { num_stage = n })
          (order.irreflexive least) (omega (arith, trade_off_chain_pos r.inv _)) room)

  stages_of-IsStrong :
      (r : DriverRequest D) (least : D) (s t : OutputDriver D) (n : ℕ)
      → n ≤ max_chain
      → stages_of g r least s n ≡ some t
      → IsStrong least t
  unfolding stages_of
  stages_of-IsStrong r least s t zero le e = absurd (none≢some e)
  stages_of-IsStrong r least s t (suc i) le e =
      let last = last_width g r (suc i) in
      let u = record s { num_stage = suc i } in
      elim (Bool-cases (last.0 ≺ least)) [
        | inl p ↦
            let v = record u { width_nmos = write s.width_nmos i last.0 } in
            let same : stages_of g r least s (suc i) ≡ trade_off g r least v =
              rw (stages_of, p) refl in
            trade_off-IsStrong r least v t (sym same ∙ e)
        | inr p ↦
            let same : stages_of g r least s (suc i)
                ≡ some (taper g i last.1 (write_widths g i last.0 u)) =
              rw (stages_of, p) refl in
            subst (IsStrong least) (some_injective (sym same ∙ e))
              (tapered-IsStrong i last.1 last.0 least u p (omega arith) (omega arith))
      ]

  asymmetric : (a b : D) → (a ≺ b) ≡ true → (b ≺ a) ≡ false
  asymmetric a b h = elim (Bool-cases (b ≺ a)) [
    | inr p ↦ p
    | inl p ↦ absurd (cc (order.irreflexive a, order.transitive a b a h p))
  ]

  max_d-right : (a b : D) → (max_d a b ≺ b) ≡ false
  max_d-right a b = elim (Bool-cases (b ≺ a)) [
    | inl p ↦ rw p (asymmetric b a p)
    | inr p ↦ rw p (order.irreflexive b)
  ]

  exits≢stays : ¬ (true ≡ false)
  exits≢stays e = cc

  rejects :
      (least : D) (s : OutputDriver D)
      → (max_nmos g ≺ max_d (min_nmos g) least) ≡ true
      → (one_stage g least s).is_invalid ≡ true
  unfolding one_stage
  rejects least s p = rw (one_stage, p) refl

  one_stage-IsStrong :
      (least : D) (s : OutputDriver D)
      → (one_stage g least s).is_invalid ≡ false
      → IsStrong least (one_stage g least s)
  unfolding one_stage
  one_stage-IsStrong least s e = elim (Bool-cases (max_nmos g ≺ max_d (min_nmos g) least)) [
    | inl p ↦ absurd (exits≢stays (sym (rejects least s p) ∙ e))
    | inr p ↦
        rw (one_stage, p)
          (record {
            some_stage = omega arith;
            fits = omega arith;
            last = max_d-right (min_nmos g) least;
            inner = λ j q. absurd (omega arith);
          })
  ]

  latency_first_stages-IsStrong :
      (r : DriverRequest D) (least : D) (s t : OutputDriver D)
      → latency_first_stages g r least s ≡ some t
      → IsStrong least t
  unfolding latency_first_stages
  latency_first_stages-IsStrong r least s t e =
      stages_of-IsStrong r least s t
        (latency_chain r.inv
          (ideal_stages (total_effort r.logic_effort r.output_cap r.input_cap))).num_stage
        (latency_chain_le r.inv _) e

  accepted-IsStrong :
      (least : D) (t : OutputDriver D) → IsStrong least t → IsStrong least (accepted g t)
  accepted-IsStrong least t h = record {
    some_stage = h.some_stage;
    fits = h.fits;
    last = h.last;
    inner = h.inner;
  }

  designed-IsStrong :
      (target : BufferDesignTarget) (r : DriverRequest D) (least : D) (s t : OutputDriver D)
      → designed g target r least s ≡ some t
      → t.is_invalid ≡ false
      → IsStrong least t
  designed-IsStrong BufferDesignTarget.latency_first r least s t e v =
      let parts = bind_inv (latency_first_stages g r least s) (λ u. some (accepted g u)) t e in
      subst (IsStrong least) (some_injective parts.2)
        (accepted-IsStrong least parts.0 (latency_first_stages-IsStrong r least s parts.0 parts.1))
  designed-IsStrong BufferDesignTarget.latency_area_trade_off r least s t e v =
      let parts = bind_inv (trade_off g r least s) (λ u. some (accepted g u)) t e in
      subst (IsStrong least) (some_injective parts.2)
        (accepted-IsStrong least parts.0 (trade_off-IsStrong r least s parts.0 parts.1))
  designed-IsStrong BufferDesignTarget.area_first r least s t e v =
      let same : one_stage g least s ≡ t = some_injective e in
      subst (IsStrong least) same
        (one_stage-IsStrong least s (subst (λ u. u.is_invalid ≡ false) (sym same) v))

  initialize-from :
      (r : DriverRequest D) (s : OutputDriver D) (least : D)
      → min_driver_width g r ≡ some least
      → initialize g r s ≡ initialize_from g least r s
  unfolding initialize
  initialize-from r s least m = rw (initialize, m) refl

  initialize_from-rejects :
      (r : DriverRequest D) (s : OutputDriver D) (least : D)
      → (max_nmos g ≺ least) ≡ true
      → initialize_from g least r s ≡ some (rejected g (requested g r s))
  unfolding initialize_from
  initialize_from-rejects r s least p = rw (initialize_from, p) refl

  initialize_from-designs :
      (r : DriverRequest D) (s : OutputDriver D) (least : D)
      → (max_nmos g ≺ least) ≡ false
      → initialize_from g least r s ≡ designed g r.area_optimization_level r least (requested g r s)
  unfolding initialize_from
  initialize_from-designs r s least p = rw (initialize_from, p) refl

  -- If `<` is a strict order, what Initialize leaves valid, where its writes are defined, has from 1
  -- to 20 stages, so that their widths are within the arrays, a last inverter that is not narrower
  -- than the current takes, and no inverter before it that is narrower than a transistor may be.
  pub initialize-IsStrong :
      (r : DriverRequest D) (s t : OutputDriver D) (least : D)
      → min_driver_width g r ≡ some least
      → initialize g r s ≡ some t
      → t.is_invalid ≡ false
      → IsStrong least t
  unfolding initialize initialize_from
  initialize-IsStrong r s t least m e v =
      let from : initialize_from g least r s ≡ some t = sym (initialize-from r s least m) ∙ e in
      elim (Bool-cases (max_nmos g ≺ least)) [
        | inl p ↦
            let same = some_injective (sym (initialize_from-rejects r s least p) ∙ from) in
            absurd (exits≢stays (ap (λ u. u.is_invalid) same ∙ v))
        | inr p ↦
            designed-IsStrong r.area_optimization_level r least (requested g r s) t
              (sym (initialize_from-designs r s least p) ∙ from) v
      ]
