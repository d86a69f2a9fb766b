-- ===== src/Bank/Htree.antt =====
-- BankWithHtree.cpp: the H-tree that routes the bits level by level.
mod Defs
pub mod Routing
pub mod Levels
pub mod Recorded
pub mod Tracked
pub mod Powers
pub mod Cut
pub mod Capacity
unfoldable pub use Defs.*
