-- ===== src/ResourceApi.antt =====
-- src/resource_api: a service that accepts the access tokens. `Verifier` is auth.py and `Reports` is
-- app.py.
pub mod Verifier
pub mod Reports
pub mod StatusClient
