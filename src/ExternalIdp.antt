-- ===== src/ExternalIdp.antt =====
-- src/temis_sso/external_idp: the state that the logins with external providers share, the adapters
-- of the three providers, and the callback of Google.
pub mod Models
pub mod Flows
pub mod Stores
pub mod Links
pub mod Naver
pub mod Kakao
pub mod Google
pub mod Jwks
pub mod Callback
