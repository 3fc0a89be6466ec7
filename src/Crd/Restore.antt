-- ===== src/Crd/Restore.antt =====
-- src/crd/kafka_restore.rs.
use strimzi_backup_operator.Base.{ℕ, String, Bool, Option, List}
use strimzi_backup_operator.Base.Int.{ℤ}
use strimzi_backup_operator.Json.{Json}
use strimzi_backup_operator.Crd.Common.{
  StrimziClusterRef, AuthenticationSpec, TopicSelection, KafkaConnectionSpec, LoggingSpec,
  MetricsSpec, PodTemplateSpec, ResourceRequirementsSpec,
}
use strimzi_backup_operator.Crd.Status.{KafkaRestoreStatus}
use strimzi_backup_operator.Crd.Backup.{ObjectMeta}

pub record BackupRef : Type 0 where
  pub name : String
  pub backup_id : Option String

pub record PointInTimeSpec : Type 0 where
  pub start_timestamp : Option String
  pub timestamp : Option String
  pub offset_from_end : Option String

pub record TopicMappingEntry : Type 0 where
  pub source_topic : String
  pub target_topic : String

pub record ConsumerGroupMapping : Type 0 where
  pub source_group : String
  pub target_group : String

pub record ConsumerGroupRestoreSpec : Type 0 where
  pub restore : Bool
  pub auto : Option Bool
  pub groups : List String
  pub strategy : Option String
  pub offset_report : Option String
  pub mapping : List ConsumerGroupMapping

pub record PartitionMappingEntry : Type 0 where
  pub source_partition : ℤ
  pub target_partition : ℤ

pub record TopicRepartitioningSpec : Type 0 where
  pub topic : String
  pub strategy : Option String
  pub target_partitions : ℤ

pub data TopicCreationPolicy : Type 0 where
  auto manual : TopicCreationPolicy

pub data ExistingTopicPolicy : Type 0 where
  fail append overwrite : ExistingTopicPolicy

pub record RestoreOptionsSpec : Type 0 where
  pub topic_creation : Option TopicCreationPolicy
  pub existing_topic_policy : Option ExistingTopicPolicy
  pub dry_run : Option Bool
  pub include_original_offset_header : Option Bool
  pub source_partitions : List ℤ
  pub partition_mapping : List PartitionMappingEntry
  pub parallelism : Option ℤ
  pub rate_limit_records_per_sec : Option ℕ
  pub rate_limit_bytes_per_sec : Option ℕ
  pub produce_batch_size : Option ℕ
  pub produce_acks : Option ℤ
  pub produce_timeout_ms : Option ℤ
  pub checkpoint_state : Option String
  pub checkpoint_interval_secs : Option ℕ
  pub default_replication_factor : Option ℤ
  pub repartitioning : List TopicRepartitioningSpec
  pub purge_topics : Option Bool

pub record KafkaRestoreSpec : Type 0 where
  pub strimzi_cluster_ref : StrimziClusterRef
  pub authentication : Option AuthenticationSpec
  pub backup_ref : BackupRef
  pub topics : Option TopicSelection
  pub point_in_time : Option PointInTimeSpec
  pub connection : Option KafkaConnectionSpec
  pub logging : Option LoggingSpec
  pub env : List Json
  pub topic_mapping : List TopicMappingEntry
  pub consumer_groups : Option ConsumerGroupRestoreSpec
  pub restore : Option RestoreOptionsSpec
  pub metrics : Option MetricsSpec
  pub resources : Option ResourceRequirementsSpec
  pub template : Option PodTemplateSpec
  pub image : Option String
  pub backoff_limit : Option ℤ

pub record KafkaRestore : Type 0 where
  pub metadata : ObjectMeta
  pub spec : KafkaRestoreSpec
  pub status : Option KafkaRestoreStatus
