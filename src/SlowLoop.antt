-- ===== src/SlowLoop.antt =====
-- The slow loop (prime_jennie_runtime/slow_loop): the macro gate, the deterministic selection, and
-- the strategy engine with the parts of a sheet that it assembles.
pub mod MacroGate
pub mod Selection
pub mod ExitHints
pub mod SheetTimes
pub mod ActiveSheets
pub mod StrategyEngine
pub mod Publishing
