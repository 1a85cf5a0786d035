-- ===== src/Vault.antt =====
-- src/zhixu_vault: the vault of secrets, its grants, its policy and its audit log.
pub mod Policy
pub mod Grants
pub mod Audit
pub mod Service
