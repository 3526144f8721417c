-- ===== src/Api.antt =====
-- apps/api/src: what the API checks before a request reaches packages/core, and its routes. A request
-- is a record of the headers and the body that a handler reads.
pub mod Protection
pub mod Auth
pub mod Replies
pub mod Routes
