-- ===== src/Bff.antt =====
-- src/temis_bff: the backend for the browser. Its sessions and login transactions are in Redis; the
-- token endpoint and the revocation are parameters, as are SHA-256 and `urllib`'s functions.
pub mod Security
pub mod Sessions
pub mod Oauth
pub mod TokenClient
pub mod App
pub mod Redirects
pub mod Lifecycle
pub mod Login
