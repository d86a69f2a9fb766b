-- ===== src/Circuit.antt =====
-- The circuits around an array: multiplexers, prechargers, sense amplifiers and decoders.
pub mod Mux
pub mod SenseAmp
pub mod RowDecoder
pub mod Precharger
pub mod BasicDecoder
pub mod Idle
pub mod Copies
