-- ===== src/Ingestion.antt =====
-- What feeds the research: backend/stockbrain/ingestion.
pub mod Budget
