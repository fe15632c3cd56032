-- ===== src/Gateway.antt =====
-- The gateway client (write-path-integration/gateway-client).
pub mod Digest
pub mod Extract
pub mod Submit
pub mod Verify
