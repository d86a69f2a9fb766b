-- ===== src/SubArray.antt =====
-- SubArray.h and SubArray.cpp: the array of cells with its decoders, multiplexers and sense amplifiers.
pub mod State
pub mod Legality
pub mod Access
pub mod Setup
pub mod Area
pub mod Bitline
pub mod Latency
pub mod CellPower
pub mod Power
pub mod Legal
