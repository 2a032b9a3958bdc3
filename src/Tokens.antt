-- ===== src/Tokens.antt =====
-- src/temis_sso/tokens.py: access tokens over the key ring.
pub mod Access
pub mod RoundTrip
pub mod Refresh
