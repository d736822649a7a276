-- ===== src/Blobs.antt =====
-- operator/src/blobs.rs: the sealed bytes on the filesystem.
pub mod Digest
pub mod Disk
pub mod Arrival
pub mod Files
pub mod Retry
