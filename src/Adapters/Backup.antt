-- ===== src/Adapters/Backup.antt =====
-- src/adapters/backup_config.rs: the configuration of a backup, before it is printed as YAML.
use strimzi_backup_operator.Base.{
  String, Bool, false, not, ◌&&◌, Option, none, some, [], ◌∷◌, is_some, is_some_and, and_then,
  unwrap_or, is_empty as is_empty_list, if◌then◌else◌,
}
use strimzi_backup_operator.Error.{Result, ok, err, ◌>>=◌, invalid_config}
use strimzi_backup_operator.Crd.Common.{OffsetStorageSpec}
use strimzi_backup_operator.Crd.Backup.{KafkaBackup, BackupOptionsSpec}
use strimzi_backup_operator.Strimzi.Cluster.{ResolvedKafkaCluster}
use strimzi_backup_operator.Strimzi.Auth.{ResolvedAuth}
use strimzi_backup_operator.Adapters.Yaml.{
  Entries, end, text, bool, number, mapping, natural, texts, run, set, set_some, when, insert,
  values,
}
use strimzi_backup_operator.Adapters.Storage.{build_storage_config}
use strimzi_backup_operator.Adapters.Sections.{
  set_optional_section, build_logging_config, build_metrics_options,
}
use strimzi_backup_operator.Adapters.Kafka.{build_kafka_config}

unfoldable pub is_incremental_one_shot : KafkaBackup → Bool
is_incremental_one_shot backup =
    is_some backup.spec.offset_storage
    && not (unwrap_or (and_then backup.spec.backup (λ b. b.continuous)) false)

-- The id of the configuration; `${BACKUP_ID}` is replaced when the Job runs.
unfoldable pub config_backup_id : KafkaBackup → String
unfolding is_incremental_one_shot
config_backup_id backup =
    if is_incremental_one_shot backup
    then unwrap_or backup.metadata.name "backup"
    else "${BACKUP_ID}"

options_section : BackupOptionsSpec → Entries
unfolding insert values
options_section opts =
    run
      (set_some "compression" text opts.compression
        ∷ set_some "compression_level" number opts.compression_level
        ∷ set_some "segment_max_bytes" number opts.segment_size
        ∷ set_some "segment_max_interval_ms" natural opts.segment_max_interval_ms
        ∷ set_some "max_concurrent_partitions" number opts.parallelism
        ∷ set_some "start_offset" text opts.start_offset
        ∷ set_some "continuous" bool opts.continuous
        ∷ set_some "include_internal_topics" bool opts.include_internal_topics
        ∷ when (not (is_empty_list opts.internal_topics))
            (set "internal_topics" (texts opts.internal_topics))
        ∷ set_some "checkpoint_interval_secs" natural opts.checkpoint_interval_secs
        ∷ set_some "sync_interval_secs" natural opts.sync_interval_secs
        ∷ set_some "include_offset_headers" bool opts.include_offset_headers
        ∷ set_some "source_cluster_id" text opts.source_cluster_id
        ∷ set_some "stop_at_current_offsets" bool opts.stop_at_current_offsets
        ∷ set_some "poll_interval_ms" natural opts.poll_interval_ms
        ∷ set_some "consumer_group_snapshot" bool opts.consumer_group_snapshot
        ∷ [])
      end

unfoldable pub build_backup_options : BackupOptionsSpec → Result Entries
unfolding options_section
build_backup_options opts =
    if is_some_and opts.encryption (λ e. e.enabled)
    then err (
        invalid_config
          "spec.backup.encryption is an Enterprise Edition capability and is not supported by the OSS Strimzi operator")
    else ok (options_section opts)

unfoldable pub build_offset_storage_options : OffsetStorageSpec → Entries
unfolding insert
build_offset_storage_options offset_storage =
    run
      (set_some "backend" text offset_storage.backend
        ∷ set_some "db_path" text offset_storage.db_path
        ∷ set_some "s3_key" text offset_storage.s3_key
        ∷ set_some "sync_interval_secs" natural offset_storage.sync_interval_secs
        ∷ [])
      end

-- The `backup` section, which is inserted even when it is empty.
with_options : Option BackupOptionsSpec → Entries → Result Entries
unfolding build_backup_options insert
with_options none m = ok m
with_options (some opts) m = do
  section ← build_backup_options opts
  ok (set "backup" (mapping section) m)

unfoldable pub build_backup_config :
    KafkaBackup → ResolvedKafkaCluster → ResolvedAuth → Result Entries
unfolding config_backup_id build_kafka_config build_storage_config set_optional_section with_options
    insert
build_backup_config backup cluster auth = do
  let source = build_kafka_config cluster auth backup.spec.topics backup.spec.connection
  storage ← build_storage_config backup.spec.storage
  let config =
      run
        (set "mode" (text "backup")
          ∷ set "backup_id" (text (config_backup_id backup))
          ∷ set "source" (mapping source)
          ∷ set "storage" (mapping storage)
          ∷ set_optional_section "logging" build_logging_config backup.spec.logging
          ∷ [])
        end
  with_backup ← with_options backup.spec.backup config
  ok (
      run
        (set_optional_section "metrics" build_metrics_options backup.spec.metrics
          ∷ set_optional_section "offset_storage" build_offset_storage_options
              backup.spec.offset_storage
          ∷ [])
        with_backup)
