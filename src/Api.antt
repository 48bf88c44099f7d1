-- ===== src/Api.antt =====
-- src/api: the HTTP interface.
pub mod Server
