-- ===== src/Guest.antt =====
-- The agent in the Windows guest: go/internal/agent.
pub mod Paths
pub mod Noise
pub mod Usn
pub mod Journal
