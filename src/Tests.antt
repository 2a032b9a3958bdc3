-- ===== src/Tests.antt =====
-- The theorems at concrete inputs, and runs of the models.
pub mod Fixtures
mod Keys
mod Grants
mod Admins
mod Accounts
mod Bundles
mod Flows
mod Browsers
mod Resources
mod Records
mod Externals
mod Routes
pub mod Providers
mod Google
mod Services
