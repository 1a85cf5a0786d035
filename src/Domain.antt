-- ===== src/Domain.antt =====
-- src/zhixu/domain: the rules of the assistant's data that need no storage and no network.
pub mod Time
pub mod Classification
pub mod Policy
pub mod Task
pub mod Note
pub mod Lunar
pub mod Business
pub mod Agenda
pub mod Leads
pub mod Briefing
pub mod Reminder
pub mod Identity
