-- ===== src/Risk.antt =====
-- internal/risk: the high water mark, the position sizer and the risk engine that uses both.
pub mod HighWater
pub mod Sizer
pub mod Engine
