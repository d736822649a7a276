-- ===== src/Sweep.antt =====
-- operator/src/sweep.rs, and the cutoffs that operator/src/main.rs computes for it.
pub mod Cutoffs
pub mod Grace
pub mod Grants
pub mod Bytes
pub mod Intact
pub mod Records
pub mod Reconcile
pub mod Lapsed
pub mod Tables
pub mod Quota
pub mod Unlinked
pub mod Readable
pub mod Consistent
pub mod Kept
pub mod Expired
pub mod Granted
pub mod Free
