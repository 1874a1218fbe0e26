-- ===== src/FastLoop.antt =====
-- The fast loop (prime_jennie_runtime/fast_loop): each tick is applied to the minute bars, the open
-- positions and the pending entries.
pub mod Domain
pub mod Indicators
pub mod ExitRules
pub mod PendingEntry
pub mod EntryConditions
pub mod BarEngine
pub mod RiskThrottle
pub mod ExitEvaluator
pub mod ExitExecutor
pub mod EntryExecutor
pub mod PositionTracker
pub mod EntryPath
pub mod Cooldown
pub mod Consumer
pub mod Run
pub mod TickLoop
