-- ===== src/Resilience.antt =====
-- internal/resilience: circuit breakers, one for each host.
pub mod Breaker
pub mod Behaviour
pub mod Probes
pub mod Similar
pub mod Host
pub mod Cleanup
pub mod Calls
pub mod Unobservable
mod Examples
