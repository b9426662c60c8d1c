-- ===== src/Normalization.antt =====
-- Package normalization (internal/normalization/normalization.go): the canonical JSON profile.
pub mod Canonicalize
pub mod Decode
pub mod Encode
pub mod Normalize
