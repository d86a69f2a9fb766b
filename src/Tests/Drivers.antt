-- ===== src/Tests/Drivers.antt =====
-- Chains of some lengths.
use nvsim.Shared.{ℕ, ◌%◌, ◌<◌, ◌≤◌, ◌≡◌, ◌↔◌, true, arith, pos}
use nvsim.Driver.{latency_chain, trade_off_chain}
use nvsim.Driver.Bounds.{parity, chain-parity, latency_chain-bounds, trade_off_chain-overflow_iff}

chain-parity_example :
    ((latency_chain true 4).num_stage % 2 ≡ parity true)
    × ((trade_off_chain true 4).num_stage % 2 ≡ parity true)
chain-parity_example = chain-parity true 4 (omega arith)

latency_chain-bounds_example : (k : ℕ) × ((latency_chain true 30).last ≡ pos k) × (k < 20)
latency_chain-bounds_example = latency_chain-bounds 30

trade_off_chain-overflow_iff_example : ((trade_off_chain true 21).last ≡ pos 20) ↔ (19 ≤ 21)
trade_off_chain-overflow_iff_example = trade_off_chain-overflow_iff 21
