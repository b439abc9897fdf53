-- ===== src/Dispatch.antt =====
-- The dispatcher of eami-gateway/cmd/gateway/dispatcher.go.
pub mod Types
pub mod Target
pub mod Hooks
pub mod Decide
pub mod Gates
pub mod View
pub mod Held
pub mod Exits
pub mod Ends
pub mod Finals
pub mod Escalated
pub mod Safety
pub mod Trail
pub mod Errors
pub mod OrgFloor
pub mod Pinned
mod Examples
