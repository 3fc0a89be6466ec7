-- ===== src/Reconcile.antt =====
-- src/reconcilers: the loops that bring the cluster to what the resources say.
pub mod Server
pub mod Shared
pub mod Counting
pub mod Hoare
pub mod Ordering
pub mod Restore
pub mod Backup
