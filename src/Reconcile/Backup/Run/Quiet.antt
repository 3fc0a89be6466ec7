-- ===== src/Reconcile/Backup/Run/Quiet.antt =====
-- The parts of src/reconcilers/backup.rs that create no Job and delete no object: they keep every
-- invariant that no other write breaks.
use strimzi_backup_operator.Base.{
  String, ◌≡◌, refl, true, Option, none, some, List, [], ◌∷◌, unwrap_or,
}
use strimzi_backup_operator.Base.Int.{ℤ}
use strimzi_backup_operator.Error.{Error, kube}
use strimzi_backup_operator.Crd.Backup.{KafkaBackup, ObjectMeta, ScheduleSpec}
use strimzi_backup_operator.Crd.Status.{Condition, KafkaBackupStatus, BackupHistoryEntry}
use strimzi_backup_operator.JobState.{Job}
use strimzi_backup_operator.Strimzi.Reads.{Reply, found, failed}
use strimzi_backup_operator.Strimzi.Cluster.{ResolvedKafkaCluster}
use strimzi_backup_operator.Strimzi.Auth.{ResolvedAuth}
use strimzi_backup_operator.Reconcile.Server.{World, Action}
use strimzi_backup_operator.Reconcile.Hoare.{
  is_quiet, IsClosed, Pred, Keeps, Keeps->>=, Keeps-asks, Keeps-lift, Keeps-if, Keeps-done,
  Keeps-send, Keeps-ignoring, Keeps-reporting, Keeps-reads,
}
use strimzi_backup_operator.Reconcile.Backup.Status.{
  patch, patch_status, current_backup_status, set_conditions, update_status_error,
  update_status_running, update_status_reconciliation_paused, update_status_scheduled,
  update_status_suspended, update_status_completed,
}
use strimzi_backup_operator.Reconcile.Backup.Outcome.{
  record_outcome, record_latest, latest_terminal, check_job_completion,
}
use strimzi_backup_operator.Reconcile.Backup.OneShot.{remove_trigger_annotation}
use strimzi_backup_operator.Reconcile.Backup.Cleanup.{
  remove_finalizer, try_delete, delete_each, delete_found, handle_cleanup,
}
use strimzi_backup_operator.Reconcile.Backup.Run.{
  add_finalizer, ensure_finalizer, create_or_update_config_map, resolve_source, configure,
  schedule_runs, schedule_step,
}

module _ (I : Pred) (closed : IsClosed I) (w : World) (namespace : String) where
  patch-Keeps : (name : String) (p : _) → Keeps I (patch w namespace name p)
  unfolding patch
  patch-Keeps name p = Keeps-send I kube w namespace _ (λ log i. closed log namespace _ refl i)

  status-Keeps : (name : String) (s : KafkaBackupStatus) → Keeps I (patch_status w namespace name s)
  unfolding patch_status
  status-Keeps name s = patch-Keeps name _

  current-Keeps : (name : String) → Keeps I (current_backup_status w namespace name)
  unfolding current_backup_status
  current-Keeps name = Keeps-reads I _

  set_conditions-Keeps :
      (name : String) (g : ℤ) (cs : List Condition) → Keeps I (set_conditions w namespace name g cs)
  unfolding set_conditions
  set_conditions-Keeps name g cs = Keeps->>= I _ _ (current-Keeps name) λ s. status-Keeps name _

  pub running-Keeps : (name : String) (g : ℤ) → Keeps I (update_status_running w namespace name g)
  unfolding update_status_running
  running-Keeps name g = Keeps-asks I _ _ λ at. set_conditions-Keeps name g _

  error-Keeps :
      (name : String) (g : ℤ) (e : Error) → Keeps I (update_status_error w namespace name g e)
  unfolding update_status_error
  error-Keeps name g e = Keeps-asks I _ _ λ at. set_conditions-Keeps name g _

  pub paused-Keeps :
      (backup : KafkaBackup) → Keeps I (update_status_reconciliation_paused w namespace backup)
  unfolding update_status_reconciliation_paused
  paused-Keeps backup = Keeps-if I _ _ _ (Keeps-done I) (Keeps-asks I _ _ λ at. status-Keeps _ _)

  scheduled-Keeps :
      (name : String) (g : ℤ) (next : String)
      → Keeps I (update_status_scheduled w namespace name g next)
  unfolding update_status_scheduled
  scheduled-Keeps name g next =
      Keeps->>= I _ _ (current-Keeps name)
        λ s. Keeps-if I _ _ _ (Keeps-done I) (Keeps-asks I _ _ λ at. status-Keeps _ _)

  suspended-Keeps : (name : String) (g : ℤ) → Keeps I (update_status_suspended w namespace name g)
  unfolding update_status_suspended
  suspended-Keeps name g =
      Keeps->>= I _ _ (current-Keeps name)
        λ s. Keeps-if I _ _ _ (Keeps-done I) (Keeps-asks I _ _ λ at. patch-Keeps _ _)

  completed-Keeps :
      (name : String) (g : ℤ) (entry : BackupHistoryEntry)
      → Keeps I (update_status_completed w namespace name g entry)
  unfolding update_status_completed
  completed-Keeps name g entry =
      Keeps->>= I _ _ (current-Keeps name) λ s. Keeps-asks I _ _ λ at. status-Keeps _ _

  outcome-Keeps :
      (backup : KafkaBackup) (g : ℤ) (job : Job) → Keeps I (record_outcome w namespace backup g job)
  unfolding record_outcome
  outcome-Keeps backup g job =
      Keeps-if I _ _ _ (Keeps-asks I _ _ λ at. completed-Keeps _ _ _)
        (Keeps-asks I _ _ λ at. set_conditions-Keeps _ _ _)

  pub record_latest-Keeps :
      (backup : KafkaBackup) (g : ℤ) (job : Option Job)
      → Keeps I (record_latest w namespace backup g job)
  unfolding record_latest
  record_latest-Keeps backup g none = Keeps-done I
  record_latest-Keeps backup g (some job) =
      Keeps-if I _ _ _ (Keeps-done I) (outcome-Keeps backup g job)

  pub trigger-Keeps : (name : String) → Keeps I (remove_trigger_annotation w namespace name)
  unfolding remove_trigger_annotation
  trigger-Keeps name = Keeps-send I kube w namespace _ (λ log i. closed log namespace _ refl i)

  pub ensure_finalizer-Keeps :
      (backup : KafkaBackup) → Keeps I (ensure_finalizer w namespace backup)
  unfolding ensure_finalizer add_finalizer
  ensure_finalizer-Keeps backup =
      Keeps-if I _ _ _ (Keeps-done I)
        (Keeps-send I kube w namespace _ (λ log i. closed log namespace _ refl i))

  -- A deletion of a Job, a CronJob or a ConfigMap.
  try_delete-Keeps : (a : Action) → is_quiet a ≡ true → Keeps I (try_delete w namespace a)
  unfolding try_delete
  try_delete-Keeps a q =
      Keeps-ignoring I _ (Keeps-send I kube w namespace a (λ log i. closed log namespace a q i))

  delete_each-Keeps : (jobs : List Job) → Keeps I (delete_each w namespace jobs)
  unfolding delete_each
  delete_each-Keeps [] = Keeps-done I
  delete_each-Keeps (job ∷ jobs) =
      Keeps->>= I _ _ (try_delete-Keeps _ refl) λ _. delete_each-Keeps jobs

  delete_found-Keeps : (reply : Reply (List Job)) → Keeps I (delete_found w namespace reply)
  unfolding delete_found
  delete_found-Keeps (found jobs) = delete_each-Keeps jobs
  delete_found-Keeps (failed e) = Keeps-done I

  pub handle_cleanup-Keeps : (metadata : ObjectMeta) → Keeps I (handle_cleanup w metadata namespace)
  unfolding handle_cleanup remove_finalizer
  handle_cleanup-Keeps metadata = Keeps-asks I _ _ λ at. Keeps->>= I _ _ (delete_found-Keeps _) λ _.
      Keeps->>= I _ _ (try_delete-Keeps _ refl) λ _.
        Keeps->>= I _ _ (try_delete-Keeps _ refl)
          λ _. Keeps-send I kube w namespace _ (λ log i. closed log namespace _ refl i)

  pub resolve_source-Keeps : (backup : KafkaBackup) → Keeps I (resolve_source w namespace backup)
  unfolding resolve_source
  resolve_source-Keeps backup = Keeps-reporting I _ _ λ e. error-Keeps _ _ e

  pub configure-Keeps :
      (backup : KafkaBackup) (cluster : ResolvedKafkaCluster) (auth : ResolvedAuth)
      → Keeps I (configure w namespace backup cluster auth)
  unfolding configure create_or_update_config_map
  configure-Keeps backup cluster auth = Keeps-lift I _ _ λ config _.
      Keeps-lift I _ _
        λ yaml _. Keeps-send I kube w namespace _ (λ log i. closed log namespace _ refl i)

  pub schedule_step-Keeps :
      (backup : KafkaBackup) (cluster : ResolvedKafkaCluster) (auth : ResolvedAuth)
      (schedule : Option ScheduleSpec)
      → Keeps I (schedule_step w namespace backup cluster auth schedule)
  unfolding schedule_step schedule_runs
  schedule_step-Keeps backup cluster auth none = Keeps-done I
  schedule_step-Keeps backup cluster auth (some schedule) = Keeps-lift I _ _ λ cronjob _.
      Keeps->>= I _ _ (Keeps-send I kube w namespace _ (λ log i. closed log namespace _ refl i))
        λ _. Keeps-if I _ _ _ (suspended-Keeps _ _) (scheduled-Keeps _ _ _)

pub check_job_completion-Keeps :
    (I : Pred)
    → IsClosed I
    → (w : World) (backup : KafkaBackup) (g : ℤ) → Keeps I (check_job_completion w backup g)
unfolding check_job_completion
check_job_completion-Keeps I closed w backup g = Keeps-asks I _ _ λ at. Keeps-lift I _ _ λ jobs _.
    record_latest-Keeps I closed w (unwrap_or backup.metadata.namespace "") backup g
      (latest_terminal jobs)
