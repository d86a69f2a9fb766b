-- ===== src/Result.antt =====
-- Result.h and Result.cpp: the best solution found so far for one optimisation target.
pub mod Best
pub mod Constraint
use package.nvsim.Shared.{Bool, true, false, ◌&&◌, List, [], ◌∷◌, if◌then◌else◌, ◌^◌}
use package.nvsim.Types.{OptimizationTarget}
use package.nvsim.Double.{Double, ◌⊗◌, ◌≺◌, ◌≼◌, whole}

-- The members of an object that its `operator=` takes over, and those that it leaves as they are: of
-- a bank the members of the derived class, and what the assignments of its parts leave out; of a wire
-- the pointer to the sense amplifier.
pub record Parts (A K : Type 0) : Type 0 where
  pub taken : A
  pub kept : K

-- The assignment of one object to another.
unfoldable pub assign : {A K : Type 0} → Parts A K → Parts A K → Parts A K
assign new old = record old { taken = new.taken }

-- A bank by its estimates, all of which its `operator=` takes over, and its other members.
pub record Bank (D O K : Type 0) : Type 0 where
  pub read_latency : D
  pub write_latency : D
  pub read_dynamic_energy : D
  pub write_dynamic_energy : D
  pub leakage : D
  pub height : D
  pub width : D
  pub area : D
  pub others : Parts O K

pub record Limits (D : Type 0) : Type 0 where
  pub limit_read_latency : D
  pub limit_write_latency : D
  pub limit_read_dynamic_energy : D
  pub limit_write_dynamic_energy : D
  pub limit_read_edp : D
  pub limit_write_edp : D
  pub limit_area : D
  pub limit_leakage : D

pub record Result (D O K W V : Type 0) : Type 0 where
  pub optimization_target : OptimizationTarget
  pub bank : Bank D O K
  pub local_wire : Parts W V
  pub global_wire : Parts W V
  pub limits : Limits D

module _ {D : Type 0} ⦃d : Double D⦄ where
  -- The literal 1e41.
  abbrev pub worst : D
  worst = whole (10 ^ 41)

  abbrev pub no_limits : Limits D
  no_limits = record {
    limit_read_latency = worst;
    limit_write_latency = worst;
    limit_read_dynamic_energy = worst;
    limit_write_dynamic_energy = worst;
    limit_read_edp = worst;
    limit_write_edp = worst;
    limit_area = worst;
    limit_leakage = worst;
  }

module _ {D O K : Type 0} ⦃d : Double D⦄ where
  abbrev pub worst_case : Bank D O K → Bank D O K
  worst_case b = record b {
    read_latency = worst;
    write_latency = worst;
    read_dynamic_energy = worst;
    write_dynamic_energy = worst;
    leakage = worst;
    height = worst;
    width = worst;
    area = worst;
  }

  -- `Bank::operator=`.
  unfoldable pub assign_bank : Bank D O K → Bank D O K → Bank D O K
  unfolding assign
  assign_bank new old = record new { others = assign new.others old.others }

  -- The first condition of `compareAndUpdate`.
  unfoldable pub within_limits : Limits D → Bank D O K → Bool
  within_limits l b =
      (b.read_latency ≼ l.limit_read_latency)
      && (b.write_latency ≼ l.limit_write_latency)
      && (b.read_dynamic_energy ≼ l.limit_read_dynamic_energy)
      && (b.write_dynamic_energy ≼ l.limit_write_dynamic_energy)
      && (b.read_latency ⊗ b.read_dynamic_energy ≼ l.limit_read_edp)
      && (b.write_latency ⊗ b.write_dynamic_energy ≼ l.limit_write_edp)
      && (b.area ≼ l.limit_area)
      && (b.leakage ≼ l.limit_leakage)

  -- Its switch: whether the first bank is to replace the second.
  unfoldable pub to_update : OptimizationTarget → Bank D O K → Bank D O K → Bool
  to_update OptimizationTarget.read_latency_optimized new old = new.read_latency ≺ old.read_latency
  to_update OptimizationTarget.write_latency_optimized new old =
      new.write_latency ≺ old.write_latency
  to_update OptimizationTarget.read_energy_optimized new old =
      new.read_dynamic_energy ≺ old.read_dynamic_energy
  to_update OptimizationTarget.write_energy_optimized new old =
      new.write_dynamic_energy ≺ old.write_dynamic_energy
  to_update OptimizationTarget.read_edp_optimized new old =
      new.read_latency ⊗ new.read_dynamic_energy ≺ old.read_latency ⊗ old.read_dynamic_energy
  to_update OptimizationTarget.write_edp_optimized new old =
      new.write_latency ⊗ new.write_dynamic_energy ≺ old.write_latency ⊗ old.write_dynamic_energy
  to_update OptimizationTarget.area_optimized new old = new.area ≺ old.area
  to_update OptimizationTarget.leakage_optimized new old = new.leakage ≺ old.leakage
  to_update OptimizationTarget.full_exploration new old = false

module _ {D O K W V : Type 0} ⦃d : Double D⦄ where
  -- The constructor, over the bank and the wires that it allocates.
  unfoldable pub new_result : Bank D O K → Parts W V → Parts W V → Result D O K W V
  new_result bank local global = record {
    optimization_target = OptimizationTarget.read_latency_optimized;
    bank = worst_case bank;
    local_wire = local;
    global_wire = global;
    limits = no_limits;
  }

  unfoldable pub reset : Result D O K W V → Result D O K W V
  reset r = record r { bank = worst_case r.bank }

  -- The three assignments.
  abbrev pub replace : Result D O K W V → Result D O K W V → Result D O K W V
  replace r new = record r {
    bank = assign_bank new.bank r.bank;
    local_wire = assign new.local_wire r.local_wire;
    global_wire = assign new.global_wire r.global_wire;
  }

  unfoldable pub compare_and_update : Result D O K W V → Result D O K W V → Result D O K W V
  unfolding within_limits to_update
  compare_and_update r new =
      if within_limits r.limits new.bank && to_update r.optimization_target new.bank r.bank
      then replace r new
      else r

  -- The results that one search offers, in its order.
  unfoldable pub compare_all : Result D O K W V → List (Result D O K W V) → Result D O K W V
  compare_all r [] = r
  compare_all r (new ∷ rest) = compare_all (compare_and_update r new) rest

  -- UPDATE_BEST_DATA and UPDATE_BEST_TAG: every best result sees the new one.
  unfoldable pub update_best : List (Result D O K W V) → Result D O K W V → List (Result D O K W V)
  update_best [] temp = []
  update_best (best ∷ rest) temp = compare_and_update best temp ∷ update_best rest temp

  -- APPLY_LIMIT.
  unfoldable pub apply_limit : Limits D → Result D O K W V → Result D O K W V
  unfolding reset
  apply_limit allowed r = record (reset r) { limits = allowed }
