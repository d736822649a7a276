-- ===== src/System.antt =====
-- The handlers of the routes in operator/src and the sweep as one system.
pub mod Keeps
pub mod History
