-- ===== src/Technology.antt =====
-- Technology.h and Technology.cpp: the constants of a process and their interpolation.
pub mod Entry
pub mod Tables
pub mod Leakage
pub mod State
pub mod Fill
pub mod Process
