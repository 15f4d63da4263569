-- ===== src/Authz.antt =====
-- server/internal/authz and the authorization gate of server/internal/auth.
pub mod Catalog
pub mod Grants
pub mod Gate
mod Examples
