-- ===== src/Tests.antt =====
-- The theorems at concrete inputs, and runs of the definitions. Decimals are whole units here
-- (Decimal/Units.antt), so that a literal such as 0.25 counts as 25.
mod Risk
mod Execution
mod Broker
mod Indicator
mod Roots
mod Strategy
mod Grid
mod Intents
mod Backtest
mod Engine
mod Observer
mod Config
