-- ===== src/Storage.antt =====
-- src/zhixu/adapters/storage/sqlite/repositories.py: the repositories over the tables of the
-- database, each write bound to an authorization and recorded in the audit events.
pub mod Tables
pub mod Access
pub mod Tasks
pub mod Reminders
pub mod Leads
pub mod Agenda
