-- ===== src/Lib.antt =====
-- A model of the server of HKGov Rethink: it fetches public datasets of Hong Kong from several
-- upstreams, keeps them in a store, derives insights from them, and raises alerts.
--
-- The parts, and how they meet:
--   * Prelude: the shared helpers. A text is the list of its bytes, a `BTreeMap` a sorted list of
--     entries. A `HashMap` is one too: its order of iteration is unspecified in the source, and the
--     order of the keys stands for it (for the buckets of Portals, that of the first listings).
--     Numbers are natural numbers, with the wrap-around of `u32` and `u64` written out where the
--     code adds to them.
--   * Common (crates/common/src/model.rs, error.rs and config.rs, crates/api/src/error.rs): the
--     records, the errors, what a client is told of an error, and the check of the settings.
--   * Resilience (crates/connectors/src/resilience.rs and registry.rs): Retry is `RetryPolicy`,
--     Breaker is `CircuitBreaker` with its methods run one at a time, Breaker/Race the same methods
--     as sequences of atomic accesses of many threads, and Connector the `ResilientConnector` that
--     puts limiter, breaker and retries around a connector.
--   * Store (crates/store/src/lib.rs, memory.rs and lineage.rs): the records of the datasets, the
--     catalogue, and the lineage of each fetch with its content hash.
--   * Ingest (crates/ingest/src/lib.rs): a refresh, which sanitizes what a connector returned, puts
--     it into the store, and records its lineage. Limited is the bounded reader of the bodies
--     (crates/connectors/src/limited.rs).
--   * Insights (crates/agent/src/insight.rs): insights by id, with their versions and histories.
--   * Investigations (crates/agent/src/investigation.rs, crates/api/src/routes/investigations.rs):
--     the case files of the users, and the requests of authenticated callers on them.
--   * Identity (crates/agent/src/identity.rs): users, magic-link tokens and sessions; Sections has
--     the methods interleaved at their sections under a lock, Login a whole login, Restore restarts.
--   * Alerts (crates/agent/src/alerts.rs): the findings that are pushed to sinks.
--   * Agent (crates/agent/src/llm.rs, loop_mod.rs, brief.rs): the loop in which a language model
--     calls tools, over any client and tools, and the daily brief, which ranks the insights.
--   * Audit (crates/agent/src/cite.rs, provenance.rs, crates/api/src/routes/audit.rs): citations in
--     their formats, the hashes of the evidence, the store of what was done to each insight, and the
--     routes that show it.
--   * Analysis (crates/agent/src/analysis.rs): findings and their ids, the periods of dates, and the
--     gaps between press releases and data.
--   * Silence (crates/agent/src/silence.rs, transparency.rs): the Silence Index of one source, and
--     the same index over a registry of signals. A `none` where the code has none is a slice that
--     panics, and a `u8` wraps around as in a release build.
--   * Scheduler (crates/agent/src/scheduler.rs, the scan targets of crates/common/src/config.rs): one
--     pass from the targets over the detectors to insights, provenance and alerts. The detectors that
--     compute with `f64` are an interface, and the store does not change during a pass.
--   * Signals (crates/agent/src/signal.rs, crates/api/src/routes/signals.rs): the watches of the
--     users, with their ids, and the requests of authenticated callers on them.
--   * Portals (crates/connectors/src/property_canon.rs): the listings of the property portals on one
--     vocabulary, their composite and their divergence.
--   * Persist (crates/agent/src/persist.rs): the snapshots of the stores in files, and the debounced
--     writer with its tasks in any order.
--   * Access (crates/api/src/auth.rs, secrets.rs, ratelimit.rs, routes/auth_routes.rs and
--     routes/mod.rs): the key guard of the API, the address by which its rate limiter counts, and
--     the way from a session's header to the caller, where Identity and Investigations meet.
--
-- State is passed explicitly: an operation takes the component's record and returns the new one.
-- Most operations hold a lock throughout, or run for one caller at a time, and are one step. The
-- breaker, which has no lock, is taken apart into its atomic accesses, and the identity tier, which
-- takes several locks in turn, into its sections under a lock. What the code calls outside the
-- repository is a parameter: the world that a connector acts on, the moka cache (which may evict
-- whenever it likes), the operations on `f64`, the sinks of the alerts, the hashes, the file system,
-- serde_json, chrono and the language model.
--
-- Loops are structural. The default `get_by_ids` of the store runs on fuel, one unit for each page
-- that it reads, and a result shows that one more than the number of records is enough. The retry
-- loop recurses on the attempts that are left, and the agent loop on the rounds. The paging of the
-- scheduler runs on fuel too, one unit for each page of 500 cached records and one more, which a
-- result shows to be enough.
--
-- Not modelled: the connectors' HTTP and parsing, the HTTP client of the language model, the Redis
-- and Postgres stores, the detectors and reports that are statistics over `f64`, the texts in
-- Chinese, the loading of the settings, and the routes of the HTTP API but for those of the
-- investigations, the signals and the audit trail.
pub mod Prelude
pub mod Common
pub mod Resilience
pub mod Store
pub mod Ingest
pub mod Insights
pub mod Alerts
pub mod Identity
pub mod Investigations
pub mod Access
pub mod Audit
pub mod Analysis
pub mod Silence
pub mod Agent
pub mod Scheduler
pub mod Persist
pub mod Portals
pub mod Signals
