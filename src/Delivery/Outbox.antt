-- ===== src/Delivery/Outbox.antt =====
-- src/zhixu/delivery/outbox.py: `OutboxStore`, a queue in the database with leases, backoff and dead
-- letters. The first four children model the store, the others prove what it promises.
pub mod Tables
pub mod Enqueue
pub mod Claim
pub mod Complete
pub mod Calls
pub mod Rows
pub mod Invariant
pub mod Order
pub mod Idempotency
pub mod Effect
pub mod Selection
pub mod Idle
pub mod Untouched
pub mod Exclusion
pub mod Outcome
pub mod Requeue
