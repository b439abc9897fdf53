-- ===== src/Audit.antt =====
-- The audit log: eami-gateway/internal/audit writes it, eami-api/internal/store verifies it.
pub mod Entry
pub mod Writer
pub mod Verify
pub mod Chain
pub mod Valid
pub mod Report
pub mod Lives
pub mod Limits
mod Examples
