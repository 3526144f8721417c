-- ===== src/Lua.antt =====
-- packages/lua: the scripts that Redis runs, each in one atomic step, and their typed wrappers.
pub mod Stock
pub mod Queue
pub mod RateLimit
pub mod Leader
pub mod Status
