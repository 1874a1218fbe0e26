-- ===== src/KisGateway.antt =====
-- The gateway to the broker (prime_jennie_runtime/kis_gateway): its circuit breaker and rate limiter.
pub mod CircuitBreaker
pub mod RateLimiter
pub mod Schemas
