-- ===== src/Authority.antt =====
-- internal/authority: the plan that explanation, materialization and execution share.
pub mod Facts
pub mod Semantics
pub mod Intents
pub mod Recipe
pub mod Sandbox
pub mod Plan
pub mod Explain
pub mod Encoding
