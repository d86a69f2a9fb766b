-- ===== src/Tests.antt =====
-- The theorems at concrete inputs, with fixed-point numbers for `double`.
mod Search
mod Shapes
mod Files
mod Banks
mod Decoders
mod Drivers
mod Settings
mod Processes
mod Circuits
mod Subarrays
mod Repeaters
