-- ===== src/Bff.antt =====
-- services/bff/src: who may call it, and what a caller may do to the connectors of a tenant.
pub mod Auth
pub mod Sources
pub mod Workspaces
pub mod Admin
pub mod Ssrf
