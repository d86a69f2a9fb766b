-- ===== src/Result/Constraint.antt =====
-- main.cpp: the second search, under the limits that the best results of the first one set.
use nvsim.Shared.{
  ℕ, ◌+◌, ◌≡◌, refl, ◌∙◌, Bool, false, ◌&&◌, List, [], ◌∷◌, arith, Bool-cases, inl, inr,
  if◌then◌else◌, ap,
}
use nvsim.Types.{OptimizationTarget}
use nvsim.Double.{Double, ◌⊕◌, ◌⊗◌, ◌≼◌, whole}
use nvsim.Input.{InputParameter}
use nvsim.Result.{
  Bank, Limits, Result, within_limits, to_update, compare_and_update, compare_all, apply_limit,
}

module _ {D : Type 0} ⦃d : Double D⦄ where
  -- A best figure, and how much of it the constraint gives away.
  abbrev pub allowed : D → D → D
  allowed best constraint = best ⊗ (constraint ⊕ whole 1)

module _ {D O K : Type 0} ⦃d : Double D⦄ where
  -- The `allowedData…` variables, from the best bank for each target.
  unfoldable pub allowed_limits : (OptimizationTarget → Bank D O K) → InputParameter D → Limits D
  allowed_limits best p = record {
    limit_read_latency =
        allowed (best OptimizationTarget.read_latency_optimized).read_latency
          p.read_latency_constraint;
    limit_write_latency =
        allowed (best OptimizationTarget.write_latency_optimized).write_latency
          p.write_latency_constraint;
    limit_read_dynamic_energy =
        allowed (best OptimizationTarget.read_energy_optimized).read_dynamic_energy
          p.read_dynamic_energy_constraint;
    limit_write_dynamic_energy =
        allowed (best OptimizationTarget.write_energy_optimized).write_dynamic_energy
          p.write_dynamic_energy_constraint;
    limit_read_edp =
        allowed
          ((best OptimizationTarget.read_edp_optimized).read_latency
            ⊗ (best OptimizationTarget.read_edp_optimized).read_dynamic_energy)
          p.read_edp_constraint;
    limit_write_edp =
        allowed
          ((best OptimizationTarget.write_edp_optimized).write_latency
            ⊗ (best OptimizationTarget.write_edp_optimized).write_dynamic_energy)
          p.write_edp_constraint;
    limit_area = allowed (best OptimizationTarget.area_optimized).area p.area_constraint;
    limit_leakage =
        allowed (best OptimizationTarget.leakage_optimized).leakage p.leakage_constraint;
  }

  -- The condition on a valid bank.
  unfoldable pub is_allowed : Limits D → Bank D O K → Bool
  is_allowed l b =
      (b.read_latency ≼ l.limit_read_latency)
      && (b.write_latency ≼ l.limit_write_latency)
      && (b.read_dynamic_energy ≼ l.limit_read_dynamic_energy)
      && (b.write_dynamic_energy ≼ l.limit_write_dynamic_energy)
      && (b.leakage ≼ l.limit_leakage)
      && (b.area ≼ l.limit_area)
      && (b.read_latency ⊗ b.read_dynamic_energy ≼ l.limit_read_edp)
      && (b.write_latency ⊗ b.write_dynamic_energy ≼ l.limit_write_edp)

  is_allowed-within : (l : Limits D) (b : Bank D O K) → is_allowed l b ≡ within_limits l b
  unfolding is_allowed within_limits
  is_allowed-within l b = ground arith

module _ {D O K W V : Type 0} ⦃d : Double D⦄ where
  -- The guarded block: it counts the solution and compares it.
  unfoldable pub visit : Limits D → ℕ × Result D O K W V → Result D O K W V → ℕ × Result D O K W V
  unfolding is_allowed compare_and_update
  visit l (solutions, r) new =
      if is_allowed l new.bank then (solutions + 1, compare_and_update r new) else (solutions, r)

  -- What the search makes of `numSolution` and of one best result, over the solutions of its valid
  -- banks in their order.
  unfoldable pub search_under :
      Limits D → ℕ × Result D O K W V → List (Result D O K W V) → ℕ × Result D O K W V
  unfolding visit
  search_under l found [] = found
  search_under l found (new ∷ rest) = search_under l (visit l found new) rest

  -- How many of the solutions are within the limits.
  abbrev pub count_within : Limits D → List (Result D O K W V) → ℕ
  count_within l [] = 0
  count_within l (new ∷ rest) = (if within_limits l new.bank then 1 else 0) + count_within l rest

  -- A comparison leaves the limits alone, and outside of them everything.
  compare_and_update-limits :
      (r new : Result D O K W V) → (compare_and_update r new).limits ≡ r.limits
  unfolding compare_and_update
  compare_and_update-limits r new =
      elim (Bool-cases
        (within_limits r.limits new.bank && to_update r.optimization_target new.bank r.bank)) [
          | inl e ↦ rw e refl
          | inr e ↦ rw e refl
        ]

  outside :
      (r new : Result D O K W V)
      → within_limits r.limits new.bank ≡ false
      → compare_and_update r new ≡ r
  unfolding compare_and_update
  outside r new e = rw e refl

  visit_step :
      (l : Limits D) (n : ℕ) (r new : Result D O K W V)
      → r.limits ≡ l
      → visit l (n, r) new
        ≡ (n + (if within_limits l new.bank then 1 else 0), compare_and_update r new)
  unfolding visit
  visit_step l n r new e = elim (Bool-cases (within_limits l new.bank)) [
    | inl w ↦ rw (is_allowed-within l new.bank, w) refl
    | inr w ↦
        let same : compare_and_update r new ≡ r = outside r new (rw (e, w) refl) in
        let none : n + 0 ≡ n = omega arith in rw (is_allowed-within l new.bank, w, same, none) refl
  ]

  search_under_from :
      (l : Limits D) (n : ℕ) (r : Result D O K W V) (cs : List (Result D O K W V))
      → r.limits ≡ l
      → search_under l (n, r) cs ≡ (n + count_within l cs, compare_all r cs)
  unfolding search_under compare_all
  search_under_from l n r [] e = let none : n + 0 ≡ n = omega arith in rw none refl
  search_under_from l n r (new ∷ cs) e =
      let k = if within_limits l new.bank then 1 else 0 in
      let sum : n + k + count_within l cs ≡ n + (k + count_within l cs) = omega arith in
      ap (λ x. search_under l x cs) (visit_step l n r new e)
      ∙ search_under_from l (n + k) (compare_and_update r new) cs
          (compare_and_update-limits r new ∙ e)
      ∙ ap (λ (x : ℕ). (x, compare_all (compare_and_update r new) cs)) sum

  -- From no solutions and a result with the limits applied, the second search counts the solutions
  -- that `compareAndUpdate` finds within the limits, and makes of the result what comparing all
  -- solutions makes of it: its own condition on a bank decides the count alone.
  pub search_under-found :
      (l : Limits D) (r : Result D O K W V) (cs : List (Result D O K W V))
      → search_under l (0, apply_limit l r) cs
        ≡ (count_within l cs, compare_all (apply_limit l r) cs)
  unfolding apply_limit
  search_under-found l r cs =
      let none : 0 + count_within l cs ≡ count_within l cs = omega arith in
      search_under_from l 0 (apply_limit l r) cs refl
      ∙ ap (λ (x : ℕ). (x, compare_all (apply_limit l r) cs)) none
