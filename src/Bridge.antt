-- ===== src/Bridge.antt =====
-- integration-bridge: the HTTP routes in front of the write-path hooks and of the ledger's history,
-- and the process's configuration and shutdown.
pub mod Http
pub mod Route
pub mod Reads
pub mod History
pub mod Process
pub mod Wiring
