-- ===== src/Application.antt =====
-- src/temis_sso/application: what administrators and users do to the database.
pub mod Admin
pub mod Auth
pub mod Users
