-- ===== src/Scanner.antt =====
-- backend/app/scanners: the vetoes, the strategies and the service.
pub mod Schemas
pub mod Vetoes
pub mod Strategies
pub mod Signals
pub mod Service
