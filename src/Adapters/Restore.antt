-- ===== src/Adapters/Restore.antt =====
-- src/adapters/restore_config.rs: the configuration of a restore, before it is printed as YAML.
-- `parse_rfc3339` is chrono's parser followed by `timestamp_millis`.
pub mod Options
use strimzi_backup_operator.Base.{String, Option, none, some, List, [], ◌∷◌, and_then, map_some}
use strimzi_backup_operator.Base.Int.{ℤ}
use strimzi_backup_operator.Error.{Result, ok, err, ◌>>=◌, ok_or, invalid_config}
use strimzi_backup_operator.Crd.Backup.{KafkaBackup}
use strimzi_backup_operator.Crd.Restore.{KafkaRestore}
use strimzi_backup_operator.Strimzi.Cluster.{ResolvedKafkaCluster}
use strimzi_backup_operator.Strimzi.Auth.{ResolvedAuth}
use strimzi_backup_operator.Adapters.Yaml.{
  Entries, end, text, mapping, run, set, set_section, insert, is_empty,
}
use strimzi_backup_operator.Adapters.Storage.{build_storage_config}
use strimzi_backup_operator.Adapters.Sections.{
  set_optional_section, build_logging_config, build_metrics_options,
}
use strimzi_backup_operator.Adapters.Kafka.{build_kafka_config}
use strimzi_backup_operator.Adapters.Restore.Options.{build_restore_options}

-- The id that the resource names, else the last backup of the source.
unfoldable pub resolve_backup_id : KafkaRestore → KafkaBackup → Result String
resolve_backup_id restore source_backup = elim restore.spec.backup_ref.backup_id [
  | some backup_id ↦ ok backup_id
  | none ↦ ok_or (map_some (and_then source_backup.status (λ s. s.last_backup)) (λ b. b.id)) (
      invalid_config
        "backupRef.backupId is required when the source KafkaBackup has no status.lastBackup.id")
]

unfoldable pub build_restore_config :
    (String → Option ℤ)
    → KafkaRestore
    → KafkaBackup
    → ResolvedKafkaCluster
    → ResolvedAuth
    → Result Entries
unfolding resolve_backup_id build_kafka_config build_storage_config set_optional_section
    build_restore_options insert is_empty
build_restore_config parse_rfc3339 restore source_backup cluster auth = do
  backup_id ← resolve_backup_id restore source_backup
  let target = build_kafka_config cluster auth restore.spec.topics restore.spec.connection
  storage ← build_storage_config source_backup.spec.storage
  restore_opts ← build_restore_options parse_rfc3339 restore.spec
  ok (
      run
        (set "mode" (text "restore")
          ∷ set "backup_id" (text backup_id)
          ∷ set "target" (mapping target)
          ∷ set "storage" (mapping storage)
          ∷ set_optional_section "logging" build_logging_config restore.spec.logging
          ∷ set_section "restore" restore_opts
          ∷ set_optional_section "metrics" build_metrics_options restore.spec.metrics
          ∷ [])
        end)
