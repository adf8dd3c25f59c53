-- ===== src/Planner.antt =====
-- internal/planner: the journey planner.
pub mod Result
pub mod Scan
pub mod Speed
pub mod Route
pub mod Legs
pub mod Csa
pub mod Choose
pub mod Raptor
pub mod Plan
