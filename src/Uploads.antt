-- ===== src/Uploads.antt =====
-- operator/src/uploads.rs: the upload profile, from the question before a transfer to the download.
pub mod Preflight
pub mod Transfer
pub mod Commit
pub mod Read
pub mod Chunks
pub mod Keeps
pub mod Sealed
pub mod ReadKeeps
pub mod Committed
