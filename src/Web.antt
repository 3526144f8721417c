-- ===== src/Web.antt =====
-- apps/web/lib: how the pages talk to the API.
pub mod Connection
pub mod Schemas
pub mod Client
pub mod Checkout
