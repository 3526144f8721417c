-- ===== src/Shared.antt =====
-- packages/shared: the constants, error codes, key names and policies that the API and worker share.
pub mod Constants
pub mod Json
pub mod Keys
pub mod Policy
pub mod Errors
pub mod Double
pub mod Eta
