-- ===== src/Double.antt =====
-- The `double` of the source and the functions of <math.h>, which are not part of the repository:
-- a type and its operations, taken as an instance. A law is never assumed of them but where a
-- theorem names it.
pub mod Tenths
pub use Tenths.*
mod Ops
unfoldable pub use Ops.*
