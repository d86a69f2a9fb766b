-- ===== src/Driver.antt =====
-- OutputDriver.cpp: how many inverters OutputDriver::Initialize puts in a chain, and where in the arrays
-- of their widths it writes.
pub mod Bounds
pub mod Widths
pub mod Strength
pub mod Figures
pub mod Flags
pub mod Defined
use nvsim.Shared.{
  ℕ, ◌+◌, ◌%◌, Bool, true, false, ltb, ◌==◌, not, if◌then◌else◌, ℤ, pos, minus, pos_part,
}
use nvsim.Double.{Double, ◌⊕◌, ◌⊗◌, ◌⊘◌, whole, max_d}

module _ {D : Type 0} ⦃d : Double D⦄ where
  -- The total logical effort, at least 1.
  unfoldable pub total_effort : D → D → D → D
  total_effort logic_effort output_cap input_cap =
      max_d (whole 1) (logic_effort ⊗ output_cap ⊘ input_cap)

  -- `MAX(0, (int)(log(F) / log(OPT_F) + 0.5) - 1)`, with OPT_F = 4.
  unfoldable pub ideal_stages : D → ℕ
  ideal_stages effort =
      pos_part (minus (d.trunc (d.log effort ⊘ d.log (whole 4) ⊕ d.decimal 5 1)) 1)

-- `(n % 2) ^ inv` as a condition.
abbrev pub odd_xor : ℕ → Bool → Bool
odd_xor n true = n % 2 == 0
odd_xor n false = n % 2 == 1

-- MAX_INV_CHAIN_LEN, which is also the length of the arrays.
abbrev pub max_chain : ℕ
max_chain = 20

abbrev pub at_most_max : ℕ → ℕ
at_most_max n = if ltb max_chain n then max_chain else n

-- The number of inverters, and the highest index of the arrays that is written, the first one.
pub record Chain : Type 0 where
  pub num_stage : ℕ
  pub last : ℤ

-- `latency_first`, from the ideal number of stages.
unfoldable pub latency_chain : Bool → ℕ → Chain
latency_chain inv n =
    let stages = at_most_max (if odd_xor n inv then n + 1 else n) in
    record { num_stage = stages; last = minus (pos stages) 1 }

-- `latency_area_trade_off`.
unfoldable pub trade_off_chain : Bool → ℕ → Chain
trade_off_chain inv n =
    let stages = at_most_max (if not (odd_xor n inv) then n + 1 else n) in
    record { num_stage = stages + 1; last = pos stages }
