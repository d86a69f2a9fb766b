-- ===== src/Driver/Bounds.antt =====
-- The parity of a chain, and the bounds of its arrays.
use nvsim.Shared.{ℕ, ◌-◌, ◌%◌, ◌≤◌, ◌<◌, ◌≡◌, Bool, true, false, arith, pos, ◌↔◌}
use nvsim.Driver.{latency_chain, trade_off_chain}

-- 1 for an inverting driver.
abbrev pub parity : Bool → ℕ
parity true = 1
parity false = 0

-- Up to 19 ideal stages, a chain inverts just as it is asked to: by both designs that count stages, the
-- number of inverters is odd for an inverting driver and even otherwise.
pub chain-parity :
    (inv : Bool) (n : ℕ)
    → n ≤ 19
    → ((latency_chain inv n).num_stage % 2 ≡ parity inv)
      × ((trade_off_chain inv n).num_stage % 2 ≡ parity inv)
unfolding latency_chain trade_off_chain
chain-parity true n h = ground arith
chain-parity false n h = ground arith

-- The chain of the latency design stays within the arrays, if it is inverting.
pub latency_chain-bounds : (n : ℕ) → (k : ℕ) × ((latency_chain true n).last ≡ pos k) × (k < 20)
unfolding latency_chain
latency_chain-bounds n = ((latency_chain true n).num_stage - 1, ground arith, ground arith)

-- An inverting chain of the trade-off design is written past the end of the arrays for just 19 and more
-- ideal stages.
pub trade_off_chain-overflow_iff : (n : ℕ) → ((trade_off_chain true n).last ≡ pos 20) ↔ (19 ≤ n)
unfolding trade_off_chain
trade_off_chain-overflow_iff n = (λ e. ground arith, λ h. ground arith)
