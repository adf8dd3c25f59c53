-- ===== src/Sync.antt =====
-- internal/sync: the parts that are modelled.
pub mod Election
pub mod Replay
pub mod Overrides
