-- ===== src/Tests.antt =====
-- Runs of the model on concrete values.
mod Domain
mod Outbox
mod Quota
mod Worker
mod Plans
mod Llm
mod Ledger
mod Vault
mod Storage
mod Reminders
mod Agenda
