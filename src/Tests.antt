-- ===== src/Tests.antt =====
-- Runs of the definitions on concrete inputs, and each theorem at an input that meets its
-- hypotheses.
pub mod Api
pub mod Archive
pub mod Bundle
pub mod Canonical
pub mod Composition
pub mod Config
pub mod Decisions
pub mod Explained
pub mod Facts
pub mod Managed
pub mod Manager
pub mod Normalization
pub mod Opa
pub mod Retry
pub mod Scenarios
pub mod Sources
