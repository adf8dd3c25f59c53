-- ===== src/Jobs.antt =====
-- The background jobs: internal/jobs and the job and quota tables of internal/store/memory.
pub mod Store
pub mod Message
pub mod Worker
