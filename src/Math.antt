-- ===== src/Math.antt =====
-- Fixed-point arithmetic with 48 fractional bits: programs/ydelta/src/math.rs.
pub mod Uint256
pub mod Scale
pub mod Fp48
pub mod Exact
pub mod Rounding
mod Tests
