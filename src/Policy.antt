-- ===== src/Policy.antt =====
-- eami-policy: the rules that decide an agent's action.
pub mod Types
pub mod Glob
pub mod Scope
pub mod Structural
pub mod Evaluator
pub mod FirstMatch
pub mod Matching
pub mod Drift
pub mod DriftOrder
pub mod DriftAmbiguous
mod Examples
pub mod Floor
pub mod Ties
