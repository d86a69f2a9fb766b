-- ===== src/Formula.antt =====
-- formula.cpp and constant.h: areas, capacitances, leakage and resistances of gates and wires.
mod Area
mod Device
mod Capacitance
unfoldable pub use Area.*
unfoldable pub use Capacitance.*
unfoldable pub use Device.*
