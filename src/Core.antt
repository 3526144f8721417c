-- ===== src/Core.antt =====
-- packages/core: the domain logic that the API and the worker share.
pub mod Context
pub mod Admin
pub mod Events
pub mod OrderViews
pub mod Orders
pub mod Releases
pub mod Queue
pub mod Payments
pub mod Reconcile
pub mod InStep
pub mod Interleaving
