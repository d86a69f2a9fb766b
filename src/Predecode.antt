-- ===== src/Predecode.antt =====
-- PredecodeBlock.cpp: how PredecodeBlock::Initialize splits the address bits over basic decoders and one
-- or two stages of row decoders.
pub mod Bits
use nvsim.Shared.{ℕ, ◌+◌, ◌-◌, ◌*◌, ◌/◌, ◌%◌, ◌^◌, ltb, leb, ◌==◌, if◌then◌else◌}

-- How many decoders there are with one, two and three address bits.
pub record Counts : Type 0 where
  pub num_decoder12 : ℕ
  pub num_decoder24 : ℕ
  pub num_decoder38 : ℕ

abbrev pub num_decoder24_of : ℕ → ℕ
num_decoder24_of remainder = if remainder == 2 then 1 else (if remainder == 1 then 2 else 0)

unfoldable pub counts : ℕ → Counts
counts n =
    if n == 1 then record { num_decoder12 = 1; num_decoder24 = 0; num_decoder38 = 0 } else record {
      num_decoder12 = 0;
      num_decoder24 = num_decoder24_of (n % 3);
      num_decoder38 = (n - 2 * num_decoder24_of (n % 3)) / 3;
    }

abbrev pub num_basic_decoder : Counts → ℕ
num_basic_decoder c = c.num_decoder12 + c.num_decoder24 + c.num_decoder38

-- The inputs of the NAND gates of both parts of the first stage, and the outputs of these parts.
pub record Stages : Type 0 where
  pub num_nand_input_a : ℕ
  pub num_nand_input_b : ℕ
  pub num_address_a : ℕ
  pub num_address_b : ℕ

-- `unset` shifts a member that nothing has set.
pub data Plan : Type 0 where
  exits : Plan
  empty : Plan
  basic_only : Plan
  one_stage : ℕ → Plan
  two_stages : Stages → Plan
  unset : Plan

unfoldable pub two_stages_of : Counts → Stages
two_stages_of c =
    let b = num_basic_decoder c / 2 in
    let a = num_basic_decoder c - b in
    record {
      num_nand_input_a = a;
      num_nand_input_b = b;
      num_address_a = 2 ^ (3 * a - c.num_decoder24);
      num_address_b = 2 ^ (3 * b);
    }

unfoldable pub plan_of : Counts → Plan
unfolding two_stages_of
plan_of c =
    if leb (num_basic_decoder c) 1
    then basic_only
    else (if leb (num_basic_decoder c) 3
        then one_stage (num_basic_decoder c)
        else (if leb (num_basic_decoder c) 6 then two_stages (two_stages_of c) else unset))

-- `PredecodeBlock::Initialize` up to the row decoders.
unfoldable pub predecode : ℕ → Plan
unfolding counts plan_of
predecode n = if ltb 27 n then exits else (if n == 0 then empty else plan_of (counts n))
