-- ===== src/Tests.antt =====
-- Small inputs, the theorems at them, and runs of the definitions on them.
pub mod Plane
pub mod Search
pub mod Plans
pub mod Work
pub mod Small
pub mod People
pub mod Nets
pub mod Register
pub mod Limits
