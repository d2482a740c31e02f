-- ===== src/Execution.antt =====
-- internal/execution: the executors of order intents.
pub mod Simulated
pub mod Intents
