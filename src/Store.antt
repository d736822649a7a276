-- ===== src/Store.antt =====
-- operator/src/store.rs: the SQLite bookkeeping. Every statement is a function on the lists of
-- rows; that SQLite itself fails (a full disk, a broken file) is not modelled.
pub mod Rows
pub mod Nonces
pub mod Snapshots
pub mod Uploads
pub mod Outcomes
pub mod Entitlements
pub mod Terms
unfoldable pub use Rows.*
pub mod Replace
pub mod Receipts
pub mod Erasures
pub mod Counts
pub mod Quota
pub mod Retention
pub mod Unavailable
pub mod Kept
pub mod Scope
pub mod Epochs
