-- ===== src/Erasures.antt =====
-- operator/src/erasures.rs: a holder has their snapshots erased, and is given receipts for it.
pub mod Days
pub mod Compose
pub mod Mint
pub mod Erase
pub mod Undecided
pub mod Decided
pub mod Promised
