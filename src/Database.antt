-- ===== src/Database.antt =====
-- PostgreSQL: the tables of packages/db/prisma/schema.prisma and the functions that the migration
-- 20260925010000_order_functions defines.
pub mod Schema
pub mod Passwords
pub mod Functions
pub mod Settlement
pub mod Tally
pub mod Consistency
pub mod Examples
