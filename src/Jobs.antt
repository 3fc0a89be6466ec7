-- ===== src/Jobs.antt =====
-- src/jobs: the Kubernetes objects that run kafka-backup.
pub mod Objects
pub mod Labels
pub mod Volumes
pub mod Pod
pub mod Build
pub mod Selection
