-- ===== src/Bank.antt =====
-- Bank.h, BankWithHtree.cpp and BankWithoutHtree.cpp: how a bank routes its address and data bits to
-- the mats.
pub mod Request
pub mod Muxes
pub mod Htree
pub mod Plain
