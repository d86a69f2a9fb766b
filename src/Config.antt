-- ===== src/Config.antt =====
-- The `-Key: value` files: the loop that InputParameter.cpp and MemCell.cpp share, over the lines that
-- `fscanf(fp, "%[^\n]\n", line)` gives.
mod Text
mod Table
pub mod Keeps
pub mod Longest
unfoldable pub use Text.*
unfoldable pub use Table.*
