-- ===== src/Export.antt =====
-- operator/src/export.rs: what a holder may always take away. The sealed bytes of one snapshot are
-- read as a download is (`Uploads.Read.export_snapshot`).
pub mod Container
pub mod Carried
