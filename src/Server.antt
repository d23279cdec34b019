-- ===== src/Server.antt =====
-- internal/server: what the handlers share.
pub mod Admission
pub mod Embed
