-- ===== src/Strimzi.antt =====
-- src/strimzi: what the operator reads of Strimzi's resources.
pub mod Reads
pub mod Listener
pub mod Cluster
pub mod Auth
pub mod Tls
