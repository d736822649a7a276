-- ===== src/Lapse.antt =====
-- operator/src/lapse.rs: lapse, notice and grace, derived for each snapshot from its own terms.
pub mod Window
pub mod Access
pub mod Keeps
pub mod Decisive
