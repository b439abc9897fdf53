-- ===== src/Registry.antt =====
-- The agent registry of eami-gateway/internal/registry.
pub mod Tables
pub mod Liveness
pub mod Lookup
pub mod Refusal
pub mod MayCall
pub mod Scope
mod Examples
