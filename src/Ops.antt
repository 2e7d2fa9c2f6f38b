-- ===== src/Ops.antt =====
-- backend/app/ops: the operations of a market day.
pub mod Events
pub mod Scheduler
