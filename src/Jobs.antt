-- ===== src/Jobs.antt =====
-- Durable background work: backend/stockbrain/jobs.
pub mod Queue
mod Tests
