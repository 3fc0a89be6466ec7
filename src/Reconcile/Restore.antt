-- ===== src/Reconcile/Restore.antt =====
-- src/reconcilers/restore.rs: the reconciliation of a KafkaRestore.
pub mod Status
pub mod Cleanup
pub mod Creates
pub mod Safety
pub mod Deletion
pub mod Lifecycle
pub mod Plan
pub mod Progress
pub mod Refinement
use strimzi_backup_operator.Base.{
  String, ◌==◌, Bool, Option, none, some, List, [], ◌∷◌, any, find, is_some, is_some_and, unwrap_or,
  map_some, and_then, if◌then◌else◌,
}
use strimzi_backup_operator.Base.Int.{ℤ, pos}
use strimzi_backup_operator.Base.Text.{format}
use strimzi_backup_operator.Error.{
  Error, KubeError, Result, ok, err, panic, ok_or, display, missing_object_key, backup_not_found,
  job_creation_failed, kube,
}
use strimzi_backup_operator.Crd.Status.{RestoreInfo, RestoreStatus, Time}
use strimzi_backup_operator.Crd.Backup.{KafkaBackup, ObjectMeta, name_any}
use strimzi_backup_operator.Crd.Restore.{KafkaRestore}
use strimzi_backup_operator.JobState.{
  Job, JobsState, no_jobs, in_progress, succeeded, failed, classify_jobs,
}
use strimzi_backup_operator.Status.{
  condition_type_restore_complete, condition_type_error, condition_type_ready, is_condition_true,
}
use strimzi_backup_operator.Strimzi.Reads.{Reply, found}
use strimzi_backup_operator.Strimzi.Cluster.{ResolvedKafkaCluster, resolve_kafka_cluster}
use strimzi_backup_operator.Strimzi.Auth.{ResolvedAuth, resolve_auth}
use strimzi_backup_operator.Adapters.Restore.{build_restore_config}
use strimzi_backup_operator.Jobs.Objects.{JobObject}
use strimzi_backup_operator.Jobs.Build.{build_restore_job, owner_of}
use strimzi_backup_operator.Reconcile.Server.{
  World, Write, Op, ◌>>=◌, ◌>>◌, after, lift, asks, answered, reporting, done, send, send_or,
  kafka_restore, finalizers, patch_finalizers, apply_config_map, create_job, ConfigMapObject,
}
use strimzi_backup_operator.Reconcile.Shared.{
  finalizer, is_reconciliation_paused, job_service_account_name,
}
use strimzi_backup_operator.Reconcile.Restore.Status.{
  update_status_running, update_status_completed, update_status_failed, update_status_error,
  update_status_reconciliation_paused, has_condition_reason,
}
use strimzi_backup_operator.Reconcile.Restore.Cleanup.{handle_cleanup}

unfoldable pub add_finalizer : World → String → String → Op (Unit {0})
unfolding send_or
add_finalizer w namespace name =
    send w namespace (patch_finalizers kafka_restore name (finalizers (finalizer ∷ [])))

unfoldable pub ensure_finalizer : World → String → KafkaRestore → Op (Unit {0})
unfolding add_finalizer
ensure_finalizer w namespace restore =
    if is_some_and restore.metadata.finalizers (λ fs. any (λ f. f == finalizer) fs)
    then done
    else add_finalizer w namespace (name_any restore.metadata)

-- The selector by which the Jobs of a restore are listed.
unfoldable pub restore_jobs_selector : String → String
unfolding format
restore_jobs_selector name =
    format ("kafkabackup.com/restore=" ∷ name ∷ ",kafkabackup.com/type=restore" ∷ [])

unfoldable pub create_or_update_config_map :
    World → String → String → String → KafkaRestore → Op (Unit {0})
unfolding send_or owner_of
create_or_update_config_map w namespace name config_yaml owner = send w namespace (
    apply_config_map (record {
      name = name;
      namespace = namespace;
      labels =
          ("app.kubernetes.io/managed-by", "kafka-backup-operator")
          ∷ ("app.kubernetes.io/part-of", "kafka-backup")
          ∷ ("kafkabackup.com/restore", name_any owner.metadata)
          ∷ [];
      owner = owner_of "KafkaRestore" owner.metadata;
      contents = ("restore.yaml", config_yaml) ∷ [];
    }))

-- What is recorded of the Job that succeeded.
unfoldable pub restore_info : List Job → String → Time → RestoreInfo
restore_info jobs job_name now =
    let job_status =
      and_then (find (λ j. is_some_and j.name (λ n. n == job_name)) jobs) (λ j. j.status) in
    record {
      start_time = unwrap_or (and_then job_status (λ s. s.start_time)) now;
      completion_time = some (unwrap_or (and_then job_status (λ s. s.completion_time)) now);
      status = RestoreStatus.completed;
      restored_topics = none;
      restored_partitions = none;
      restored_bytes = none;
      point_in_time_target = none;
      actual_point_in_time = none;
    }

-- `get` of the source backup, with any failure as one error.
unfoldable pub source_backup : Reply KafkaBackup → String → Result KafkaBackup
source_backup (found backup) name = ok backup
source_backup (Reply.failed e) name = err (backup_not_found name)

-- Steps 5 and 6: the ConfigMap, the Job and the status, once the dependencies are resolved.
create_restore_job :
    World
    → String
    → KafkaRestore
    → KafkaBackup
    → ResolvedKafkaCluster
    → ResolvedAuth
    → Op (Unit {0})
unfolding create_or_update_config_map build_restore_config build_restore_job format send_or display
    job_service_account_name update_status_running
create_restore_job w namespace restore source cluster auth = do
  let name = name_any restore.metadata
  let config_map_name = format (name ∷ "-config" ∷ [])
  config ← lift (build_restore_config w.parse_rfc3339 restore source cluster auth)
  config_yaml ← lift (w.print config)
  _ ← create_or_update_config_map w namespace config_map_name config_yaml restore
  now ← asks w.now
  let job_name = format (name ∷ "-" ∷ w.timestamp now ∷ [])
  job ← lift (
      build_restore_job w.conversions restore job_name config_map_name cluster auth source
        (job_service_account_name w.service_account))
  _ ← send_or (λ e. job_creation_failed (display e)) w namespace (create_job job)
  update_status_running w namespace name (unwrap_or restore.metadata.generation (pos 0))

-- Step 2: an error is reported in the status before it is returned.
resolve_target : World → String → KafkaRestore → Op ResolvedKafkaCluster
unfolding resolve_kafka_cluster update_status_error
resolve_target w namespace restore =
    reporting
      (λ log.
        resolve_kafka_cluster (w.reads log) restore.spec.strimzi_cluster_ref namespace
          (map_some restore.spec.authentication (λ a. a.auth_type)))
      (update_status_error w namespace (name_any restore.metadata)
        (unwrap_or restore.metadata.generation (pos 0)))

-- No Job exists yet: the dependencies are resolved and one is created. Step 3 is left out: it reads
-- the CA, whose absence is logged, and the configuration does not use it.
pub start_restore : World → String → KafkaRestore → Op (Unit {0})
unfolding source_backup resolve_target resolve_auth create_restore_job
start_restore w namespace restore = do
  let backup_name = restore.spec.backup_ref.name
  reply ← asks (λ log. w.backup log namespace backup_name)
  source ← lift (source_backup reply backup_name)
  cluster ← resolve_target w namespace restore
  reads ← asks w.reads
  auth ← lift (resolve_auth reads restore.spec.authentication namespace)
  create_restore_job w namespace restore source cluster auth

-- What follows from the state of the Jobs.
pub advance : World → String → KafkaRestore → List Job → JobsState → Op (Unit {0})
unfolding restore_info update_status_completed update_status_failed update_status_running
    has_condition_reason start_restore
advance w namespace restore jobs (succeeded job_name) = do
  now ← asks w.now
  update_status_completed w namespace (name_any restore.metadata)
      (unwrap_or restore.metadata.generation (pos 0)) (restore_info jobs job_name now)
advance w namespace restore jobs (failed job_name) =
    if has_condition_reason restore.status condition_type_error "RestoreFailed"
    then done
    else update_status_failed w namespace (name_any restore.metadata)
        (unwrap_or restore.metadata.generation (pos 0)) job_name
advance w namespace restore jobs in_progress =
    if has_condition_reason restore.status condition_type_ready "RestoreRunning"
    then done
    else update_status_running w namespace (name_any restore.metadata)
        (unwrap_or restore.metadata.generation (pos 0))
advance w namespace restore jobs no_jobs = start_restore w namespace restore

-- Whether the status says that the restore is complete.
unfoldable pub is_complete : KafkaRestore → Bool
unfolding is_condition_true
is_complete restore =
    is_some_and restore.status λ s. is_condition_true s.conditions condition_type_restore_complete

-- The Jobs of the restore are listed and followed.
follow_jobs : World → String → KafkaRestore → Op (Unit {0})
unfolding restore_jobs_selector classify_jobs advance
follow_jobs w namespace restore = do
  reply ← asks (λ log. w.jobs log namespace (restore_jobs_selector (name_any restore.metadata)))
  jobs ← lift (answered reply)
  advance w namespace restore jobs (classify_jobs jobs)

-- A resource that is neither deleted nor paused.
pub reconcile_live : World → String → KafkaRestore → Op (Unit {0})
unfolding ensure_finalizer is_complete follow_jobs
reconcile_live w namespace restore = ensure_finalizer w namespace restore >>= λ _.
    if is_complete restore then done else follow_jobs w namespace restore

-- What is done for a resource: deletion comes first, then the pause.
pub dispatch : World → KafkaRestore → String → Op (Unit {0})
unfolding handle_cleanup is_reconciliation_paused update_status_reconciliation_paused reconcile_live
dispatch w restore namespace =
    if is_some restore.metadata.deletion_timestamp
    then handle_cleanup w restore.metadata namespace
    else if is_reconciliation_paused restore.metadata
    then update_status_reconciliation_paused w namespace restore
    else reconcile_live w namespace restore

unfoldable pub reconcile_restore : World → KafkaRestore → Op (Unit {0})
unfolding dispatch
reconcile_restore w restore =
    lift (ok_or restore.metadata.namespace (missing_object_key ".metadata.namespace"))
    >>= dispatch w restore
