-- ===== src/Inspect.antt =====
-- go/internal/pcapinspect: the conversations of a capture, and which of them the allowlist denies.
pub mod Ip
pub mod Reserved
pub mod Flow
pub mod Breach
pub mod Aggregate
pub mod Follow
