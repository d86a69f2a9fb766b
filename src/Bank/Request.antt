-- ===== src/Bank/Request.antt =====
-- The arguments of `Bank::Initialize`, and what both kinds of bank compute from them.
use nvsim.Shared.{ℕ, ◌*◌, ◌/◌, Bool, true, false, ltb, if◌then◌else◌, ℤ, pos, pos_part}
use nvsim.Types.{MemoryType, MemCellType, dram, edram}
use nvsim.Double.{Double, log2_round, whole_log2}
use nvsim.Exploration.Space.{DesignPoint}

pub record BankRequest : Type 0 where
  pub point : DesignPoint
  pub capacity : ℕ
  pub block_size : ℕ
  pub associativity : ℕ
  pub internal_sense_amp : Bool
  pub memory_type : MemoryType

-- The three degrees of multiplexing.
pub record Muxes : Type 0 where
  pub sense_amp : ℕ
  pub output_lev1 : ℕ
  pub output_lev2 : ℕ

abbrev pub degree : Muxes → ℕ
degree m = m.sense_amp * m.output_lev1 * m.output_lev2

abbrev pub is_dram : MemCellType → Bool
is_dram dram = true
is_dram edram = true
is_dram _ = false

-- `(int)pow(2, n)`.
unfoldable pub int_pow2 : {D : Type 0} → Double D → ℕ → ℕ
int_pow2 d n = pos_part (d.trunc (d.pow (d.of_int (pos 2)) (d.of_int (pos n))))

-- `(int)(log2((double)capacity / blockSize / associativity) + 0.1)`.
unfoldable pub address_bits : {D : Type 0} → Double D → BankRequest → ℤ
address_bits d b = log2_round ⦃d = d⦄ (
    d.div (d.div (d.of_int (pos b.capacity)) (d.of_int (pos b.block_size)))
      (d.of_int (pos b.associativity)))

-- The extra multiplexing of several ways in a row.
unfoldable pub widen_muxes : {D : Type 0} → Double D → MemCellType → ℕ → Muxes → Muxes
unfolding int_pow2
widen_muxes d cell ways m =
    if ltb 1 ways
    then (if is_dram cell
        then (let lev2 = int_pow2 d (whole_log2 d ways / 2) in
            record m {
              output_lev1 = m.output_lev1 * (ways / lev2);
              output_lev2 = m.output_lev2 * lev2;
            })
        else (let lev2 = int_pow2 d (whole_log2 d ways / 3) in
            record {
              sense_amp = m.sense_amp * (ways / lev2 / lev2);
              output_lev1 = m.output_lev1 * lev2;
              output_lev2 = m.output_lev2 * lev2;
            }))
    else m
