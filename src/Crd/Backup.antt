-- ===== src/Crd/Backup.antt =====
-- src/crd/kafka_backup.rs, with the object metadata that the reconciler reads.
use strimzi_backup_operator.Base.{ℕ, String, Bool, Option, List, unwrap_or}
use strimzi_backup_operator.Base.Int.{ℤ}
use strimzi_backup_operator.Json.{Json}
use strimzi_backup_operator.Crd.Common.{
  StrimziClusterRef, AuthenticationSpec, TopicSelection, ConsumerGroupSelection,
  KafkaConnectionSpec, LoggingSpec, MetricsSpec, OffsetStorageSpec, PodTemplateSpec,
  ResourceRequirementsSpec,
}
use strimzi_backup_operator.Crd.Storage.{StorageSpec}
use strimzi_backup_operator.Crd.Status.{Time, KafkaBackupStatus}

pub record UnsupportedEncryptionSpec : Type 0 where
  pub enabled : Bool

pub record BackupOptionsSpec : Type 0 where
  pub compression : Option String
  pub compression_level : Option ℤ
  pub encryption : Option UnsupportedEncryptionSpec
  pub segment_size : Option ℤ
  pub segment_max_interval_ms : Option ℕ
  pub parallelism : Option ℤ
  pub start_offset : Option String
  pub continuous : Option Bool
  pub include_internal_topics : Option Bool
  pub internal_topics : List String
  pub checkpoint_interval_secs : Option ℕ
  pub sync_interval_secs : Option ℕ
  pub include_offset_headers : Option Bool
  pub source_cluster_id : Option String
  pub stop_at_current_offsets : Option Bool
  pub poll_interval_ms : Option ℕ
  pub consumer_group_snapshot : Option Bool

pub record ScheduleSpec : Type 0 where
  pub cron : String
  pub timezone : Option String
  pub suspend : Bool

pub record RetentionSpec : Type 0 where
  pub max_backups : Option ℤ
  pub max_age : Option String
  pub prune_on_schedule : Bool

pub record KafkaBackupSpec : Type 0 where
  pub strimzi_cluster_ref : StrimziClusterRef
  pub authentication : Option AuthenticationSpec
  pub topics : Option TopicSelection
  pub connection : Option KafkaConnectionSpec
  pub consumer_groups : Option ConsumerGroupSelection
  pub logging : Option LoggingSpec
  pub env : List Json
  pub storage : StorageSpec
  pub backup : Option BackupOptionsSpec
  pub metrics : Option MetricsSpec
  pub offset_storage : Option OffsetStorageSpec
  pub schedule : Option ScheduleSpec
  pub retention : Option RetentionSpec
  pub resources : Option ResourceRequirementsSpec
  pub template : Option PodTemplateSpec
  pub image : Option String
  pub backoff_limit : Option ℤ

-- `ObjectMeta`, the fields that the operator reads
pub record ObjectMeta : Type 0 where
  pub name : Option String
  pub generate_name : Option String
  pub namespace : Option String
  pub uid : Option String
  pub generation : Option ℤ
  pub deletion_timestamp : Option Time
  pub finalizers : Option (List String)
  pub annotations : List (String × String)

-- kube's `name_any`: the name, else the generated name's prefix, else the empty text
abbrev pub name_any : ObjectMeta → String
name_any m = unwrap_or m.name (unwrap_or m.generate_name "")

pub record KafkaBackup : Type 0 where
  pub metadata : ObjectMeta
  pub spec : KafkaBackupSpec
  pub status : Option KafkaBackupStatus
