-- ===== src/Reconcile/Backup.antt =====
-- src/reconcilers/backup.rs: the reconciliation of a KafkaBackup, by its steps.
pub mod Status
pub mod Outcome
pub mod Active
pub mod OneShot
pub mod Cleanup
pub mod Retain
pub mod Run
