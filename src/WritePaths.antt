-- ===== src/WritePaths.antt =====
-- write-path-integration/writepaths: the hooks that save a section and anchor it, and erasure.
pub mod Store
pub mod Hooks
pub mod Erasure
