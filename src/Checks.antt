-- ===== src/Checks.antt =====
-- main.cpp: applyConstraint, and isPow2 of formula.cpp on which it calls.
pub mod PowerTest
use nvsim.Shared.{
  ℕ, zero, suc, ◌+◌, ◌-◌, ◌*◌, ◌/◌, ◌%◌, Bool, true, false, not, ◌&&◌, ltb, ◌==◌, Option, none,
  some, if◌then◌else◌,
}
use nvsim.Types.{
  MemCellType, dram, mlcnand, DesignTarget, cache, ram_chip, cam_chip, RoutingMode, h_tree,
  non_h_tree,
}
use nvsim.Input.{InputParameter}

-- The `&` of two numbers of so many bits.
unfoldable pub bit_and : ℕ → ℕ → ℕ → ℕ
bit_and zero a b = 0
bit_and (suc width) a b = 2 * bit_and width (a / 2) (b / 2) + (a % 2) * (b % 2)

-- `isPow2`, for an `int` that is not negative.
unfoldable pub is_pow2 : ℕ → Bool
unfolding bit_and
is_pow2 n = if ltb n 1 then false else bit_and 32 n (n - 1) == 0

abbrev pub is_cam : DesignTarget → Bool
is_cam cache = false
is_cam ram_chip = false
is_cam cam_chip = true

abbrev pub is_cache : DesignTarget → Bool
is_cache cache = true
is_cache ram_chip = false
is_cache cam_chip = false

abbrev pub is_unsupported : MemCellType → Bool
is_unsupported dram = true
is_unsupported mlcnand = true
is_unsupported _ = false

abbrev pub is_h_tree : RoutingMode → Bool
is_h_tree h_tree = true
is_h_tree non_h_tree = false

module _ {D : Type 0} where
  abbrev pub without_ways : InputParameter D → InputParameter D
  without_ways p = record p {
    associativity =
        if not (is_cache p.design_target) && ltb 1 p.associativity then 1 else p.associativity;
  }

  -- `none` where the program exits.
  unfoldable pub apply_constraint : MemCellType → InputParameter D → Option (InputParameter D)
  unfolding is_pow2
  apply_constraint cell p =
      let q = without_ways p in
      if is_cam p.design_target
      then none
      else (if is_unsupported cell
          then none
          else (if not (is_pow2 q.associativity)
              then none
              else (if is_h_tree q.routing_mode && not q.internal_sensing then none else some q)))
