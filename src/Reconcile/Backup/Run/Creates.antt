-- ===== src/Reconcile/Backup/Run/Creates.antt =====
-- How many Jobs one reconciliation of src/reconcilers/backup.rs creates, whatever the cluster answers.
use strimzi_backup_operator.Base.{
  ℕ, String, ◌≡◌, refl, ◌≤◌, true, false, [], arith, is_none, unwrap_or,
}
use strimzi_backup_operator.Crd.Backup.{KafkaBackup}
use strimzi_backup_operator.Strimzi.Cluster.{ResolvedKafkaCluster}
use strimzi_backup_operator.Strimzi.Auth.{ResolvedAuth}
use strimzi_backup_operator.Reconcile.Server.{
  World, Action, Op, create_job, delete_object, patch_backup_status, patch_finalizers,
  patch_restore_status, remove_annotation, apply_config_map, apply_cronjob, delete_job,
  delete_cronjob, delete_config_map,
}
use strimzi_backup_operator.Reconcile.Hoare.{is_quiet, IsClosed, Pred, Keeps, kept}
use strimzi_backup_operator.Reconcile.Counting.{
  count, AtMost, AtMost-before, AtMost-then, AtMost-lift, AtMost-asks, AtMost-if, AtMost-done,
  AtMost-weaken,
}
use strimzi_backup_operator.Reconcile.Restore.Creates.{creates_job}
use strimzi_backup_operator.Reconcile.Backup.OneShot.{is_triggered, one_shot}
use strimzi_backup_operator.Reconcile.Backup.OneShot.Laws.{one_shot-creates}
use strimzi_backup_operator.Reconcile.Backup.Retain.{apply_retention_policy}
use strimzi_backup_operator.Reconcile.Backup.Retain.Laws.{apply_retention_policy-Keeps}
use strimzi_backup_operator.Reconcile.Backup.Run.{
  run_steps, reconcile_live, dispatch, reconcile_backup,
}
use strimzi_backup_operator.Reconcile.Backup.Run.Quiet.{
  paused-Keeps, ensure_finalizer-Keeps, handle_cleanup-Keeps, resolve_source-Keeps, configure-Keeps,
  schedule_step-Keeps, check_job_completion-Keeps,
}

pub quiet-creates : (a : Action) → is_quiet a ≡ true → creates_job a ≡ false
quiet-creates (create_job j) h = cc
quiet-creates (delete_object p) h = refl
quiet-creates (patch_backup_status n p) h = refl
quiet-creates (patch_finalizers k n p) h = refl
quiet-creates (patch_restore_status n p) h = refl
quiet-creates (remove_annotation n k) h = refl
quiet-creates (apply_config_map c) h = refl
quiet-creates (apply_cronjob c) h = refl
quiet-creates (delete_job p n) h = refl
quiet-creates (delete_cronjob p n) h = refl
quiet-creates (delete_config_map p n) h = refl

abbrev Below : ℕ → Pred
Below k log = count creates_job log ≤ k

Below-IsClosed : (k : ℕ) → IsClosed (Below k)
Below-IsClosed k log namespace a q i = ground (arith, quiet-creates a q, i)

-- What keeps every bound creates no Job.
none_created : {A : Type 0} (m : Op A) → ((k : ℕ) → Keeps (Below k) m) → AtMost creates_job 0 m
none_created m h = record {
  at_most = λ log.
      let bound =
        kept (Below (count creates_job log)) m log (h (count creates_job log)) (omega arith) in
      omega (arith, bound);
}

module _ (w : World) (namespace : String) (backup : KafkaBackup) where
  retention-creates : AtMost creates_job 0 (apply_retention_policy w backup)
  retention-creates = none_created _ λ k.
      apply_retention_policy-Keeps w (unwrap_or backup.metadata.namespace "") backup (Below k)
        (Below-IsClosed k) (λ log path h i. ground (arith, i)) refl

  -- The steps create as many Jobs as the one-shot step does.
  run_steps-creates :
      (n : ℕ) (cluster : ResolvedKafkaCluster) (auth : ResolvedAuth)
      → AtMost creates_job n (one_shot w namespace backup cluster auth)
      → AtMost creates_job n (run_steps w namespace backup cluster auth)
  unfolding run_steps
  run_steps-creates n cluster auth h =
      AtMost-before creates_job n _ _
        (none_created _ λ k.
          schedule_step-Keeps (Below k) (Below-IsClosed k) w namespace backup cluster auth
            backup.spec.schedule)
        λ _. AtMost-then creates_job n _ _ h λ _.
          AtMost-before creates_job 0 _ _
            (none_created _ λ k. check_job_completion-Keeps (Below k) (Below-IsClosed k) w backup _)
            λ _. retention-creates

  live-creates :
      (n : ℕ)
      → ((cluster : ResolvedKafkaCluster) (auth : ResolvedAuth)
          → AtMost creates_job n (one_shot w namespace backup cluster auth))
      → AtMost creates_job n (reconcile_live w namespace backup)
  unfolding reconcile_live
  live-creates n h =
      AtMost-before creates_job n _ _
        (none_created _ λ k. ensure_finalizer-Keeps (Below k) (Below-IsClosed k) w namespace backup)
        λ _.
          AtMost-before creates_job n _ _
            (none_created _
              λ k. resolve_source-Keeps (Below k) (Below-IsClosed k) w namespace backup)
            λ cluster. AtMost-asks creates_job n _ _ λ reads. AtMost-lift creates_job n _ _ λ auth.
              AtMost-before creates_job n _ _
                (none_created _
                  λ k. configure-Keeps (Below k) (Below-IsClosed k) w namespace backup cluster auth)
                λ _. run_steps-creates n cluster auth (h cluster auth)

  dispatch-creates :
      (n : ℕ)
      → ((cluster : ResolvedKafkaCluster) (auth : ResolvedAuth)
          → AtMost creates_job n (one_shot w namespace backup cluster auth))
      → AtMost creates_job n (dispatch w backup namespace)
  unfolding dispatch
  dispatch-creates n h =
      AtMost-if creates_job n _ _ _
        (AtMost-weaken creates_job 0 n _ (omega arith) (
          none_created _
            λ k. handle_cleanup-Keeps (Below k) (Below-IsClosed k) w namespace backup.metadata))
        (AtMost-if creates_job n _ _ _
          (AtMost-weaken creates_job 0 n _ (omega arith)
            (none_created _ λ k. paused-Keeps (Below k) (Below-IsClosed k) w namespace backup))
          (live-creates n h))

-- One reconciliation of a backup attempts to create at most one Job, whatever the cluster answers.
pub reconcile_backup_creates_one :
    (w : World) (backup : KafkaBackup) → count creates_job (reconcile_backup w backup []).1 ≤ 1
unfolding reconcile_backup
reconcile_backup_creates_one w backup =
    (AtMost-lift creates_job 1 _ _ λ namespace.
        dispatch-creates w namespace backup 1 (one_shot-creates w namespace backup)).at_most
      []

one_shot_idle :
    (w : World) (namespace : String) (backup : KafkaBackup)
    → is_none backup.spec.schedule ≡ false
    → is_triggered backup ≡ false
    → (cluster : ResolvedKafkaCluster) (auth : ResolvedAuth)
    → AtMost creates_job 0 (one_shot w namespace backup cluster auth)
unfolding one_shot
one_shot_idle w namespace backup s t cluster auth = rw (s, t) (AtMost-done creates_job 0)

-- A backup with a schedule that is not triggered by hand creates no Job itself, whatever the cluster
-- answers: its Jobs are the CronJob's.
pub reconcile_backup_scheduled :
    (w : World) (backup : KafkaBackup)
    → is_none backup.spec.schedule ≡ false
    → is_triggered backup ≡ false
    → count creates_job (reconcile_backup w backup []).1 ≡ 0
unfolding reconcile_backup
reconcile_backup_scheduled w backup s t =
    let bound : AtMost creates_job 0 (reconcile_backup w backup) =
      AtMost-lift creates_job 0 _ _
        λ namespace. dispatch-creates w namespace backup 0 (one_shot_idle w namespace backup s t) in
    omega (arith, bound.at_most [])
