-- ===== src/Tests.antt =====
-- The theorems applied to concrete resources of the cluster.
mod Decisions
mod Histories
mod Resources
mod Restores
mod Selectors
mod Keys
mod Stores
mod Backups
mod Worlds
mod Reconciliations
mod Storages
mod Monitoring
mod Attachments
