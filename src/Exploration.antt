-- ===== src/Exploration.antt =====
-- main.cpp and macros.h: the search.
pub mod Enumeration
pub mod Space
