-- ===== src/Documents.antt =====
-- operator/src/documents.rs: the published documents.
pub mod Duration
pub mod Json
pub mod Canonical
pub mod Signing
pub mod Sign
pub mod Published
