-- ===== src/Decision.antt =====
-- backend/app/decision: the structured decisions on candidates.
pub mod Payloads
pub mod Outputs
pub mod Service
pub mod Automation
