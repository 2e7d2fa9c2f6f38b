-- ===== src/MarketData.antt =====
-- backend/app/market_data: ticks, candles and watchlists.
pub mod Candles
pub mod Watchlists
