-- ===== src/Retention.antt =====
-- src/retention and the history functions of src/reconcilers/backup.rs.
pub mod History
pub mod Policy
pub mod Storage
