-- ===== src/Indicator.antt =====
-- pkg/indicator and internal/observer/calculator.go: the technical indicators.
pub mod Window
pub mod Sma
pub mod Atr
pub mod StdDev
pub mod Calculator
