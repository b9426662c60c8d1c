-- ===== src/Policy/Bundle.antt =====
-- internal/policy/bundle.go: policy bundles, their files, manifests, archives and revisions.
pub mod Version
pub mod Dependencies
pub mod Files
pub mod Inspect
pub mod Seal
pub mod Archive
pub mod Diff
pub mod Directory
