-- ===== src/Adapters.antt =====
-- src/adapters: the kafka-backup configuration that is written for a Job.
pub mod Yaml
pub mod Storage
pub mod Sections
pub mod Kafka
pub mod Backup
pub mod Restore
