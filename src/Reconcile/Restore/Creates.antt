-- ===== src/Reconcile/Restore/Creates.antt =====
-- Bounds on the Jobs that each part of src/reconcilers/restore.rs creates.
use strimzi_backup_operator.Base.{
  ℕ, String, ◌≢◌, refl, Bool, true, false, List, [], ◌∷◌, arith, if◌then◌else◌, subst,
}
use strimzi_backup_operator.Base.Int.{ℤ}
use strimzi_backup_operator.Error.{Error, kube}
use strimzi_backup_operator.Crd.Backup.{KafkaBackup, ObjectMeta}
use strimzi_backup_operator.Crd.Restore.{KafkaRestore}
use strimzi_backup_operator.Crd.Status.{KafkaRestoreStatus, RestoreInfo}
use strimzi_backup_operator.JobState.{
  Job, JobsState, no_jobs, in_progress, succeeded, failed, classify_jobs, should_create_restore_job,
}
use strimzi_backup_operator.JobState.Create.{should_create_restore_job-classify_jobs}
use strimzi_backup_operator.Strimzi.Reads.{Reply, found}
use strimzi_backup_operator.Strimzi.Cluster.{ResolvedKafkaCluster}
use strimzi_backup_operator.Strimzi.Auth.{ResolvedAuth}
use strimzi_backup_operator.Reconcile.Server.{World, Action, create_job}
use strimzi_backup_operator.Reconcile.Counting.{
  AtMost, AtMost->>=, AtMost-lift, AtMost-asks, AtMost-done, AtMost-if, AtMost-send,
  AtMost-send_other, AtMost-ignoring, AtMost-reporting, AtMost-weaken,
}
use strimzi_backup_operator.Reconcile.Restore.{
  add_finalizer, ensure_finalizer, create_or_update_config_map, create_restore_job, resolve_target,
  start_restore, advance, follow_jobs, reconcile_live, dispatch,
}
use strimzi_backup_operator.Reconcile.Restore.Status.{
  patch_status, update_status_running, update_status_completed, update_status_failed,
  update_status_error, update_status_reconciliation_paused,
}
use strimzi_backup_operator.Reconcile.Restore.Cleanup.{
  handle_cleanup, delete_jobs, delete_listed, remove_finalizer,
}

abbrev pub creates_job : Action → Bool
creates_job (create_job _) = true
creates_job _ = false

module _ (w : World) (namespace : String) where
  patch_status-creates :
      (name : String) (s : KafkaRestoreStatus)
      → AtMost creates_job 0 (patch_status w namespace name s)
  unfolding patch_status
  patch_status-creates name s = AtMost-send_other creates_job kube w namespace _ refl

  running-creates :
      (name : String) (g : ℤ) → AtMost creates_job 0 (update_status_running w namespace name g)
  unfolding update_status_running
  running-creates name g = AtMost-asks creates_job 0 w.now _ λ now. patch_status-creates name _

  completed-creates :
      (name : String) (g : ℤ) (i : RestoreInfo)
      → AtMost creates_job 0 (update_status_completed w namespace name g i)
  unfolding update_status_completed
  completed-creates name g i = AtMost-asks creates_job 0 w.now _ λ now. patch_status-creates name _

  failed-creates :
      (name : String) (g : ℤ) (job : String)
      → AtMost creates_job 0 (update_status_failed w namespace name g job)
  unfolding update_status_failed
  failed-creates name g job = AtMost-asks creates_job 0 w.now _ λ now. patch_status-creates name _

  error-creates :
      (name : String) (g : ℤ) (e : Error)
      → AtMost creates_job 0 (update_status_error w namespace name g e)
  unfolding update_status_error
  error-creates name g e = AtMost-asks creates_job 0 w.now _ λ now. patch_status-creates name _

  paused-creates :
      (restore : KafkaRestore)
      → AtMost creates_job 0 (update_status_reconciliation_paused w namespace restore)
  unfolding update_status_reconciliation_paused
  paused-creates restore =
      AtMost-if creates_job 0 _ _ _ (AtMost-done creates_job 0)
        (AtMost-asks creates_job 0 w.now _ λ now. patch_status-creates _ _)

  pub ensure_finalizer-creates :
      (restore : KafkaRestore) → AtMost creates_job 0 (ensure_finalizer w namespace restore)
  unfolding ensure_finalizer add_finalizer
  ensure_finalizer-creates restore =
      AtMost-if creates_job 0 _ _ _ (AtMost-done creates_job 0)
        (AtMost-send_other creates_job kube w namespace _ refl)

  delete_jobs-creates : (jobs : List Job) → AtMost creates_job 0 (delete_jobs w namespace jobs)
  unfolding delete_jobs
  delete_jobs-creates [] = AtMost-done creates_job 0
  delete_jobs-creates (job ∷ jobs) =
      AtMost->>= creates_job 0 0 _ _
        (AtMost-ignoring creates_job 0 _ (AtMost-send_other creates_job kube w namespace _ refl))
        λ _. delete_jobs-creates jobs

  delete_listed-creates :
      (reply : Reply (List Job)) → AtMost creates_job 0 (delete_listed w namespace reply)
  unfolding delete_listed
  delete_listed-creates (found jobs) = delete_jobs-creates jobs
  delete_listed-creates (Reply.failed e) = AtMost-done creates_job 0

  handle_cleanup-creates :
      (metadata : ObjectMeta) → AtMost creates_job 0 (handle_cleanup w metadata namespace)
  unfolding handle_cleanup remove_finalizer
  handle_cleanup-creates metadata = AtMost-asks creates_job 0 _ _ λ reply.
      AtMost->>= creates_job 0 0 _ _ (delete_listed-creates reply) λ _.
        AtMost->>= creates_job 0 0 _ _
          (AtMost-ignoring creates_job 0 _ (AtMost-send_other creates_job kube w namespace _ refl))
          λ _. AtMost-send_other creates_job kube w namespace _ refl

  config_map-creates :
      (name yaml : String) (restore : KafkaRestore)
      → AtMost creates_job 0 (create_or_update_config_map w namespace name yaml restore)
  unfolding create_or_update_config_map
  config_map-creates name yaml restore = AtMost-send_other creates_job kube w namespace _ refl

  create_restore_job-creates :
      (restore : KafkaRestore) (source : KafkaBackup) (cluster : ResolvedKafkaCluster)
      (auth : ResolvedAuth)
      → AtMost creates_job 1 (create_restore_job w namespace restore source cluster auth)
  unfolding create_restore_job
  create_restore_job-creates restore source cluster auth = AtMost-lift creates_job 1 _ _ λ config.
      AtMost-lift creates_job 1 _ _ λ yaml.
        AtMost->>= creates_job 0 1 _ _ (config_map-creates _ yaml restore) λ _.
          AtMost-asks creates_job 1 _ _ λ now. AtMost-lift creates_job 1 _ _ λ job.
            AtMost->>= creates_job 1 0 _ _ (AtMost-send creates_job _ w namespace _)
              λ _. running-creates _ _

  resolve_target-creates :
      (restore : KafkaRestore) → AtMost creates_job 0 (resolve_target w namespace restore)
  unfolding resolve_target
  resolve_target-creates restore = AtMost-reporting creates_job 0 _ _ λ e. error-creates _ _ e

  start_restore-creates :
      (restore : KafkaRestore) → AtMost creates_job 1 (start_restore w namespace restore)
  unfolding start_restore
  start_restore-creates restore = AtMost-asks creates_job 1 _ _ λ reply.
      AtMost-lift creates_job 1 _ _ λ source.
        AtMost->>= creates_job 0 1 _ _ (resolve_target-creates restore) λ cluster.
          AtMost-asks creates_job 1 _ _ λ reads.
            AtMost-lift creates_job 1 _ _
              λ auth. create_restore_job-creates restore source cluster auth

  -- A Job is created only in the state that lets one be created.
  advance-creates :
      (restore : KafkaRestore) (jobs : List Job) (s : JobsState)
      → AtMost creates_job
          (if should_create_restore_job s then 1 else 0)
          (advance w namespace restore jobs s)
  unfolding advance should_create_restore_job
  advance-creates restore jobs no_jobs = start_restore-creates restore
  advance-creates restore jobs in_progress =
      AtMost-if creates_job 0 _ _ _ (AtMost-done creates_job 0) (running-creates _ _)
  advance-creates restore jobs (failed n) =
      AtMost-if creates_job 0 _ _ _ (AtMost-done creates_job 0) (failed-creates _ _ n)
  advance-creates restore jobs (succeeded n) =
      AtMost-asks creates_job 0 _ _ λ now. completed-creates _ _ _

  advance_one :
      (restore : KafkaRestore) (jobs : List Job) (s : JobsState)
      → AtMost creates_job 1 (advance w namespace restore jobs s)
  advance_one restore jobs s =
      AtMost-weaken creates_job _ 1 _ (ground arith) (advance-creates restore jobs s)

  pub advance_none :
      (restore : KafkaRestore) (jobs : List Job)
      → jobs ≢ []
      → AtMost creates_job 0 (advance w namespace restore jobs (classify_jobs jobs))
  advance_none restore [] h = absurd (h refl)
  advance_none restore (j ∷ jobs) h =
      subst
        (λ b.
          AtMost creates_job (if b then 1 else 0)
            (advance w namespace restore (j ∷ jobs) (classify_jobs (j ∷ jobs))))
        (should_create_restore_job-classify_jobs (j ∷ jobs))
        (advance-creates restore (j ∷ jobs) (classify_jobs (j ∷ jobs)))

  follow_jobs-creates :
      (restore : KafkaRestore) → AtMost creates_job 1 (follow_jobs w namespace restore)
  unfolding follow_jobs
  follow_jobs-creates restore =
      AtMost-asks creates_job 1 _ _
        λ reply. AtMost-lift creates_job 1 _ _ λ jobs. advance_one restore jobs (classify_jobs jobs)

  pub reconcile_live-creates :
      (restore : KafkaRestore) → AtMost creates_job 1 (reconcile_live w namespace restore)
  unfolding reconcile_live
  reconcile_live-creates restore =
      AtMost->>= creates_job 0 1 _ _ (ensure_finalizer-creates restore)
        λ _. AtMost-if creates_job 1 _ _ _ (AtMost-done creates_job 1) (follow_jobs-creates restore)

  pub dispatched_one :
      (restore : KafkaRestore) (n : ℕ)
      → AtMost creates_job n (reconcile_live w namespace restore)
      → AtMost creates_job n (dispatch w restore namespace)
  unfolding dispatch
  dispatched_one restore n h =
      AtMost-if creates_job n _ _ _
        (AtMost-weaken creates_job 0 n _ (omega arith) (handle_cleanup-creates restore.metadata))
        (AtMost-if creates_job n _ _ _
          (AtMost-weaken creates_job 0 n _ (omega arith) (paused-creates restore)) h)
