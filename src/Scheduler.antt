-- ===== src/Scheduler.antt =====
-- src/zhixu/application/scheduler.py: what the clock makes of agenda items and reminders.
pub mod Leads
