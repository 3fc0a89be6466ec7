-- ===== src/Reconcile/Backup/Run.antt =====
-- `reconcile_backup` of src/reconcilers/backup.rs.
pub mod Quiet
pub mod Creates
pub mod Laws
pub mod Deletes
pub mod Order
use strimzi_backup_operator.Base.{
  String, ◌==◌, Bool, Option, none, some, List, [], ◌∷◌, any, is_some, is_some_and, unwrap_or,
  map_some, if◌then◌else◌,
}
use strimzi_backup_operator.Base.Int.{ℤ, pos}
use strimzi_backup_operator.Base.Text.{format}
use strimzi_backup_operator.Error.{Result, ok, err, panic, ok_or, missing_object_key}
use strimzi_backup_operator.Crd.Backup.{KafkaBackup, ObjectMeta, ScheduleSpec, name_any}
use strimzi_backup_operator.Strimzi.Cluster.{ResolvedKafkaCluster, resolve_kafka_cluster}
use strimzi_backup_operator.Strimzi.Auth.{ResolvedAuth, resolve_auth}
use strimzi_backup_operator.Adapters.Backup.{build_backup_config}
use strimzi_backup_operator.Jobs.Build.{build_backup_cronjob, owner_of}
use strimzi_backup_operator.Reconcile.Server.{
  World, Op, ◌>>=◌, ◌>>◌, lift, asks, reporting, done, send, send_or, kafka_backup, finalizers,
  patch_finalizers, apply_config_map, apply_cronjob,
}
use strimzi_backup_operator.Reconcile.Shared.{
  finalizer, is_reconciliation_paused, job_service_account_name,
}
use strimzi_backup_operator.Reconcile.Backup.Status.{
  update_status_error, update_status_reconciliation_paused, update_status_scheduled,
  update_status_suspended,
}
use strimzi_backup_operator.Reconcile.Backup.Outcome.{check_job_completion}
use strimzi_backup_operator.Reconcile.Backup.OneShot.{one_shot}
use strimzi_backup_operator.Reconcile.Backup.Cleanup.{handle_cleanup}
use strimzi_backup_operator.Reconcile.Backup.Retain.{apply_retention_policy}

unfoldable pub add_finalizer : World → String → String → Op (Unit {0})
unfolding send_or
add_finalizer w namespace name =
    send w namespace (patch_finalizers kafka_backup name (finalizers (finalizer ∷ [])))

unfoldable pub ensure_finalizer : World → String → KafkaBackup → Op (Unit {0})
unfolding add_finalizer
ensure_finalizer w namespace backup =
    if is_some_and backup.metadata.finalizers (λ fs. any (λ f. f == finalizer) fs)
    then done
    else add_finalizer w namespace (name_any backup.metadata)

unfoldable pub create_or_update_config_map :
    World → String → String → String → KafkaBackup → Op (Unit {0})
unfolding send_or owner_of
create_or_update_config_map w namespace name config_yaml owner = send w namespace (
    apply_config_map (record {
      name = name;
      namespace = namespace;
      labels =
          ("app.kubernetes.io/managed-by", "kafka-backup-operator")
          ∷ ("app.kubernetes.io/part-of", "kafka-backup")
          ∷ ("kafkabackup.com/backup", name_any owner.metadata)
          ∷ [];
      owner = owner_of "KafkaBackup" owner.metadata;
      contents = ("backup.yaml", config_yaml) ∷ [];
    }))

abbrev pub generation_of : KafkaBackup → ℤ
generation_of backup = unwrap_or backup.metadata.generation (pos 0)

-- Step 1: an error is reported in the status before it is returned.
pub resolve_source : World → String → KafkaBackup → Op ResolvedKafkaCluster
unfolding resolve_kafka_cluster update_status_error
resolve_source w namespace backup =
    reporting
      (λ log.
        resolve_kafka_cluster (w.reads log) backup.spec.strimzi_cluster_ref namespace
          (map_some backup.spec.authentication (λ a. a.auth_type)))
      (update_status_error w namespace (name_any backup.metadata) (generation_of backup))

-- Step 4: the ConfigMap.
pub configure : World → String → KafkaBackup → ResolvedKafkaCluster → ResolvedAuth → Op (Unit {0})
unfolding build_backup_config format create_or_update_config_map
configure w namespace backup cluster auth = do
  config ← lift (build_backup_config backup cluster auth)
  config_yaml ← lift (w.print config)
  create_or_update_config_map w namespace (format (name_any backup.metadata ∷ "-config" ∷ []))
      config_yaml backup

-- Step 5: the CronJob of a schedule, also of a suspended one, and the status.
schedule_runs :
    World
    → String
    → KafkaBackup
    → ResolvedKafkaCluster
    → ResolvedAuth
    → ScheduleSpec
    → Op (Unit {0})
unfolding build_backup_cronjob format job_service_account_name send_or update_status_suspended
    update_status_scheduled
schedule_runs w namespace backup cluster auth schedule =
    let name = name_any backup.metadata in
    lift (
      build_backup_cronjob w.conversions backup (format (name ∷ "-config" ∷ [])) cluster auth
        (job_service_account_name w.service_account))
    >>= λ cronjob. send w namespace (apply_cronjob cronjob) >>= λ _.
        if schedule.suspend
        then update_status_suspended w namespace name (generation_of backup)
        else update_status_scheduled w namespace name (generation_of backup) schedule.cron

pub schedule_step :
    World
    → String
    → KafkaBackup
    → ResolvedKafkaCluster
    → ResolvedAuth
    → Option ScheduleSpec
    → Op (Unit {0})
unfolding schedule_runs
schedule_step w namespace backup cluster auth none = done
schedule_step w namespace backup cluster auth (some schedule) =
    schedule_runs w namespace backup cluster auth schedule

-- Steps 5 to 8, once the configuration is in place.
pub run_steps : World → String → KafkaBackup → ResolvedKafkaCluster → ResolvedAuth → Op (Unit {0})
unfolding schedule_step one_shot check_job_completion apply_retention_policy
run_steps w namespace backup cluster auth = do
  _ ← schedule_step w namespace backup cluster auth backup.spec.schedule
  _ ← one_shot w namespace backup cluster auth
  _ ← check_job_completion w backup (generation_of backup)
  apply_retention_policy w backup

-- A resource that is neither deleted nor paused. Step 2 is left out: it reads the CA, whose absence
-- is logged, and the configuration does not use it.
pub reconcile_live : World → String → KafkaBackup → Op (Unit {0})
unfolding ensure_finalizer resolve_source resolve_auth configure run_steps
reconcile_live w namespace backup = do
  _ ← ensure_finalizer w namespace backup
  cluster ← resolve_source w namespace backup
  reads ← asks w.reads
  auth ← lift (resolve_auth reads backup.spec.authentication namespace)
  _ ← configure w namespace backup cluster auth
  run_steps w namespace backup cluster auth

-- What is done for a resource: deletion comes first, then the pause.
pub dispatch : World → KafkaBackup → String → Op (Unit {0})
unfolding handle_cleanup is_reconciliation_paused update_status_reconciliation_paused reconcile_live
dispatch w backup namespace =
    if is_some backup.metadata.deletion_timestamp
    then handle_cleanup w backup.metadata namespace
    else if is_reconciliation_paused backup.metadata
    then update_status_reconciliation_paused w namespace backup
    else reconcile_live w namespace backup

unfoldable pub reconcile_backup : World → KafkaBackup → Op (Unit {0})
unfolding dispatch
reconcile_backup w backup =
    lift (ok_or backup.metadata.namespace (missing_object_key ".metadata.namespace"))
    >>= dispatch w backup
