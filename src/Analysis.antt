-- ===== src/Analysis.antt =====
-- backend/app/analysis: the candles of a session and the quality of the data.
pub mod Sessions
