-- ===== src/Exploration/Space.antt =====
-- macros.h: BIGFOR, the thirteen nested loops over the organisations of a bank, and the two resets
-- of their bounds.
mod Legal
mod Reduced
pub use Legal.*
pub use Reduced.*
mod Defs
unfoldable pub use Defs.*
