-- ===== src/Result/Best.antt =====
-- What a series of `compareAndUpdate` leaves is within the limits and is not beaten.
use nvsim.Shared.{
  ◌≡◌, refl, ◌∙◌, sym, ◌⊎◌, inl, inr, ◌≢◌, true, false, List, [], ◌∷◌, arith, ◌∈◌, Bool-cases,
}
use mathlib.Core.Bool.{false≢true}
use nvsim.Types.{OptimizationTarget}
use nvsim.Double.{Double, ◌⊗◌, ◌≺◌, IsStrictOrder}
use nvsim.Result.{
  Bank, Limits, Result, assign, assign_bank, within_limits, to_update, replace, compare_and_update,
  compare_all,
}

module _ {D O K : Type 0} ⦃d : Double D⦄ where
  -- The figure that a target minimises.
  abbrev pub score : OptimizationTarget → Bank D O K → D
  score OptimizationTarget.read_latency_optimized b = b.read_latency
  score OptimizationTarget.write_latency_optimized b = b.write_latency
  score OptimizationTarget.read_energy_optimized b = b.read_dynamic_energy
  score OptimizationTarget.write_energy_optimized b = b.write_dynamic_energy
  score OptimizationTarget.read_edp_optimized b = b.read_latency ⊗ b.read_dynamic_energy
  score OptimizationTarget.write_edp_optimized b = b.write_latency ⊗ b.write_dynamic_energy
  score OptimizationTarget.leakage_optimized b = b.leakage
  score OptimizationTarget.area_optimized b = b.area
  score OptimizationTarget.full_exploration b = b.area

  to_update-score :
      (t : OptimizationTarget) (new old : Bank D O K)
      → t ≢ OptimizationTarget.full_exploration
      → to_update t new old ≡ (score t new ≺ score t old)
  unfolding to_update
  to_update-score OptimizationTarget.read_latency_optimized new old h = refl
  to_update-score OptimizationTarget.full_exploration new old h = absurd (h refl)
  to_update-score _ new old h = refl

  -- The assignment of a bank takes over the figure.
  score-assign_bank :
      (t : OptimizationTarget) (new old : Bank D O K) → score t (assign_bank new old) ≡ score t new
  unfolding assign_bank
  score-assign_bank OptimizationTarget.full_exploration new old = refl
  score-assign_bank _ new old = refl

module _ {D O K W V : Type 0} ⦃d : Double D⦄ where
  -- No bank of the list that is within the limits has a lower score.
  abbrev pub Unbeaten : OptimizationTarget → Limits D → D → List (Result D O K W V) → Type 0
  Unbeaten t l best [] = Unit
  Unbeaten t l best (c ∷ cs) =
      (within_limits l c.bank ≡ true → (score t c.bank ≺ best) ≡ false) × Unbeaten t l best cs

  -- The solution is the first one, or what the assignments from one of the list that is within the
  -- limits make of it.
  abbrev pub Comes : Result D O K W V → List (Result D O K W V) → Result D O K W V → Type 0
  Comes first cs r =
      (r ≡ first)
      ⊎ ((c : Result D O K W V) × (c ∈ cs)
          × (within_limits first.limits c.bank ≡ true)
          × (r ≡ replace first c))

  module _ (order : IsStrictOrder d) where
    -- What a series of comparisons makes of a result.
    pub record IsBest (r : Result D O K W V) (cs : List (Result D O K W V)) (f : Result D O K W V)
        : Type 0 where
      pub target : f.optimization_target ≡ r.optimization_target
      pub limits : f.limits ≡ r.limits
      pub unbeaten : Unbeaten r.optimization_target r.limits (score r.optimization_target f.bank) cs
      pub improves :
          (f ≡ r)
          ⊎ ((score r.optimization_target f.bank ≺ score r.optimization_target r.bank) ≡ true)
      pub comes : Comes r cs f

    compare_and_update_step :
        (r c : Result D O K W V)
        → r.optimization_target ≢ OptimizationTarget.full_exploration
        → let new = compare_and_update r c in
          let t = r.optimization_target in
          (within_limits r.limits c.bank ≡ true → (score t c.bank ≺ score t new.bank) ≡ false)
          × ((new ≡ r)
              ⊎ (within_limits r.limits c.bank ≡ true)
                × (new ≡ replace r c)
                × ((score t c.bank ≺ score t r.bank) ≡ true))
    unfolding compare_and_update
    compare_and_update_step r c h =
        let t = r.optimization_target in
        ground (
          arith,
          to_update-score t c.bank r.bank h,
          order.irreflexive (score t c.bank),
          score-assign_bank t c.bank r.bank,
          Bool-cases (score t c.bank ≺ score t r.bank),
        )

    -- A candidate that a result does not lose to does not beat what improves on that result.
    head_unbeaten :
        (r c f new : Result D O K W V)
        → let t = r.optimization_target in
          (within_limits r.limits c.bank ≡ true → (score t c.bank ≺ score t new.bank) ≡ false)
          → (f ≡ new) ⊎ ((score t f.bank ≺ score t new.bank) ≡ true)
          → within_limits r.limits c.bank ≡ true
          → (score t c.bank ≺ score t f.bank) ≡ false
    head_unbeaten r c f new h (inl e) w = rw e (h w)
    head_unbeaten r c f new h (inr lt) w =
        let t = r.optimization_target in
        elim (Bool-cases (score t c.bank ≺ score t f.bank)) [
          | inl below ↦
              absurd (false≢true (sym (h w) ∙ order.transitive _ _ (score t new.bank) below lt))
          | inr done ↦ done
        ]

    Comes-later :
        (r c : Result D O K W V) (cs : List (Result D O K W V)) (f : Result D O K W V)
        → Comes r cs f
        → Comes r (c ∷ cs) f
    Comes-later r c cs f (inl e) = inl e
    Comes-later r c cs f (inr (x, m, w, e)) = inr (x, inr m, w, e)

    Comes-moved :
        (r c : Result D O K W V) (cs : List (Result D O K W V)) (f : Result D O K W V)
        → within_limits r.limits c.bank ≡ true
        → Comes (replace r c) cs f
        → Comes r (c ∷ cs) f
    unfolding assign_bank assign
    Comes-moved r c cs f w (inl e) = inr (c, inl refl, w, e)
    Comes-moved r c cs f w (inr (x, m, v, e)) = inr (x, inr m, v, e)

    improves_more :
        (r c f : Result D O K W V)
        → let t = r.optimization_target in
          ((score t c.bank ≺ score t r.bank) ≡ true)
          → (f ≡ replace r c) ⊎ ((score t f.bank ≺ score t c.bank) ≡ true)
          → (f ≡ r) ⊎ ((score t f.bank ≺ score t r.bank) ≡ true)
    improves_more r c f lt (inl e) =
        inr (rw (e, score-assign_bank r.optimization_target c.bank r.bank) lt)
    improves_more r c f lt (inr more) =
        inr (order.transitive _ (score r.optimization_target c.bank) _ more lt)

    -- If `<` is a strict order, for a target other than the full exploration: the solution that a
    -- series of comparisons leaves is the first one, or what the assignments of bank and wires from
    -- one of the series that is within the limits make of it; it is the first one or has a lower
    -- figure; no solution of the series that is within the limits has a lower figure than it; and
    -- target and limits stay.
    pub compare_all-IsBest :
        (r : Result D O K W V) (cs : List (Result D O K W V))
        → r.optimization_target ≢ OptimizationTarget.full_exploration
        → IsBest r cs (compare_all r cs)
    unfolding compare_all
    compare_all-IsBest r [] h = record {
      target = refl;
      limits = refl;
      unbeaten = tt;
      improves = inl refl;
      comes = inl refl;
    }
    compare_all-IsBest r (c ∷ cs) h =
        let (beats, cases) = compare_and_update_step r c h in
        elim cases [
          | inl kept ↦
              let rest = compare_all-IsBest r cs h in
              rw kept (record {
                target = rest.target;
                limits = rest.limits;
                unbeaten = (head_unbeaten r c _ r (rw kept at beats) rest.improves, rest.unbeaten);
                improves = rest.improves;
                comes = Comes-later r c cs _ rest.comes;
              })
          | inr (w, moved, lt) ↦
              let rest = compare_all-IsBest (replace r c) cs h in
              rw moved (record {
                target = rest.target;
                limits = rest.limits;
                unbeaten = (
                  head_unbeaten r c _ (replace r c) (rw moved at beats) rest.improves,
                  rest.unbeaten,
                );
                improves =
                    improves_more r c _ lt
                      (rw (← score-assign_bank r.optimization_target c.bank r.bank) rest.improves);
                comes = Comes-moved r c cs _ w rest.comes;
              })
        ]
