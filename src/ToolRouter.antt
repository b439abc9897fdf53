-- ===== src/ToolRouter.antt =====
-- The router of registered REST tools: eami-gateway/internal/toolrouter/router.go.
pub mod Forward
pub mod Prepared
mod Examples
