-- ===== src/Services.antt =====
-- src/zhixu/application/services.py: `ZhixuServices`, where a command passes the policy before a
-- repository writes.
pub mod Context
pub mod Tasks
pub mod Reminders
pub mod Agenda
