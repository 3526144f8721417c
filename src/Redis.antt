-- ===== src/Redis.antt =====
-- The Redis server that packages/lua/scripts and packages/core call. It is not part of the
-- repository, so it is a parameter: a store, what one key of it holds, the commands that change it,
-- and the documented effect of each command on what the keys hold. Commands that only read are
-- read off the slot.
pub mod Entries
pub mod Server
pub mod Memory
pub mod Order
pub use Entries.*
pub use Server.{Redis}
