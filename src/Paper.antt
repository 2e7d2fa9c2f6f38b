-- ===== src/Paper.antt =====
-- backend/app/paper: the simulated order lifecycle over stored candles.
pub mod Schemas
pub mod Simulator
pub mod Repository
pub mod Service
pub mod Report
