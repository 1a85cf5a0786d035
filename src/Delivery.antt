-- ===== src/Delivery.antt =====
-- src/zhixu/delivery: the queue of outbound messages, the quotas and the worker that joins them.
pub mod Outbox
pub mod Quota
pub mod Renderer
pub mod Worker
