-- ===== src/Tools/Pilscan.antt =====
-- fabric-network/tools/pilscan/main.go: the scan of every block of every tenant channel.
pub mod Patterns
pub mod Findings
pub mod Checks
pub mod Block
pub mod Channel
pub mod Quiet
pub mod Arguments
pub mod Walk
pub mod Swept
