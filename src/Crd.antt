-- ===== src/Crd.antt =====
-- src/crd: the custom resources' types. The serde attributes that matter (fields left out of a
-- patch when they are empty) are in Kube.Patch.
pub mod Common
pub mod Storage
pub mod Status
pub mod Backup
pub mod Restore
