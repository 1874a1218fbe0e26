-- ===== src/Dca.antt =====
-- User-directed campaigns that buy a ticker in slices (prime_jennie_runtime/user_directed_dca).
pub mod State
pub mod Planning
pub mod Broker
pub mod Executor
pub mod Repository
pub mod Tick
