-- ===== src/Api.antt =====
-- operator/src/api.rs: the route that serves terms documents. Routing itself is the framework's.
pub mod Terms
pub mod Served
