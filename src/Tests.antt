-- ===== src/Tests.antt =====
-- Applications of the theorems to small concrete inputs, one module per part of the program.
mod Contract
mod Client
mod Stores
mod Files
mod Hooks
mod Routes
mod Reads
mod Feed
mod Documents
mod Scan
mod Network
mod Wiring
mod Join
mod Ending
mod Deploy
mod Raft
