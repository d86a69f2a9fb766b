-- ===== src/Wire.antt =====
-- Wire.h and Wire.cpp: wires, with or without repeaters.
pub mod State
pub mod Fine
pub mod Middle
pub mod Coarse
pub mod Repeater
pub mod Penalty
pub mod Setup
pub mod Delay
