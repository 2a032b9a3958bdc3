-- ===== src/Api.antt =====
-- src/temis_sso/api: the HTTP handlers. A handler is an action that returns its body or raises; a
-- request that FastAPI's validation refuses is a 422.
pub mod Tokens
pub mod Oauth
pub mod Accounts
pub mod Users
pub mod Admin
pub mod Identities
pub mod Naver
pub mod Kakao
pub mod Google
