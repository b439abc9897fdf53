-- ===== src/Approval.antt =====
-- The approval router of eami-gateway/internal/approval/router.go.
pub mod Types
pub mod ConfigHash
pub mod Limits
pub mod Resume
pub mod Outcome
pub mod Calls
pub mod Resumption
pub mod Hold
pub mod Outcomes
pub mod Once
pub mod AtMostOnce
pub mod Slack
pub mod Ticket
mod Examples
pub mod Pin
