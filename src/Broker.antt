-- ===== src/Broker.antt =====
-- The daily session with the broker: backend/app/broker.
pub mod Sessions
pub mod Auth
pub mod Login
