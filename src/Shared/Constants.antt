-- ===== src/Shared/Constants.antt =====
-- packages/shared/src/constants.ts: the statuses of a queue and of an order, and the defaults.
use antretix.Common.{ℕ, ◌*◌}

-- QUEUE_STATUSES
pub data QueueStatus : Type 0 where
  scheduled prequeue open_ paused sold_out closed : QueueStatus

-- ORDER_STATUSES
pub data OrderStatus : Type 0 where
  pending paid expired cancelled refunded : OrderStatus

-- DEFAULTS
pub record Defaults : Type 0 where
  pub admit_per_sec : ℕ
  pub max_active : ℕ
  pub max_per_user : ℕ
  pub access_token_ttl_sec : ℕ
  pub hold_ttl_sec : ℕ
  pub heartbeat_timeout_sec : ℕ
  pub pre_queue_minutes : ℕ
  pub eta_window_sec : ℕ

abbrev pub defaults : Defaults
defaults = record {
  admit_per_sec = 50;
  max_active = 500;
  max_per_user = 4;
  access_token_ttl_sec = 10 * 60;
  hold_ttl_sec = 10 * 60;
  heartbeat_timeout_sec = 2 * 60;
  pre_queue_minutes = 30;
  eta_window_sec = 60;
}
