-- ===== src/Resilience/Connector.antt =====
-- `ResilientConnector` of crates/connectors/src/registry.rs, as one caller sees it. The connector
-- inside, the limiter, the clocks and the sleep are the world `S`: `acquire` is
-- `RateLimiter::acquire`, which only waits, and `now` reads the clock in milliseconds.
mod Defs
mod Outcome
mod Wedge
pub use Defs.{World, ResilientConnector, rejection}
unfoldable pub use Defs.{
  new, without_retry, is_breaker_worthy, attempt, report, admitted, gate, fetch,
}
pub use Outcome.*
pub use Wedge.*
