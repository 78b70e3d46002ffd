-- ===== src/Registry.antt =====
-- go/internal/registry: what changed in the registry between two snapshots.
pub mod Index
pub mod Merge
pub mod Diff
