-- ===== src/Resilience.antt =====
-- crates/connectors/src/resilience.rs and the `ResilientConnector` of
-- crates/connectors/src/registry.rs: retries with backoff, the circuit breaker, and the connector
-- that puts them round every outbound call.
pub mod Retry
pub mod Breaker
pub mod Connector
mod Examples
