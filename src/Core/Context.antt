-- ===== src/Core/Context.antt =====
-- packages/core/src/context.ts: what the operations of the package work on. The Prisma client and
-- the Redis client are the two stores.
use antretix.Common.{ℕ}
use antretix.Redis.{Redis}
use antretix.Database.Schema.{Database}

pub record CoreSettings : Type 0 where
  pub hold_ttl_ms : ℕ
  pub session_ttl_ms : ℕ
  pub heartbeat_timeout_ms : ℕ

pub record World (R : Redis) : Type 0 where
  pub redis : Redis.Store R
  pub db : Database
