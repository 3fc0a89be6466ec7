-- ===== src/Reconcile/Backup/Run/Deletes.antt =====
-- Which objects one reconciliation of src/reconcilers/backup.rs deletes from the storage.
use strimzi_backup_operator.Base.{String, ◌≡◌, ap, true, some, List, [], ◌∷◌, unwrap_or, subst, sym}
use strimzi_backup_operator.Crd.Backup.{KafkaBackup}
use strimzi_backup_operator.Strimzi.Cluster.{ResolvedKafkaCluster}
use strimzi_backup_operator.Strimzi.Auth.{ResolvedAuth}
use strimzi_backup_operator.Reconcile.Server.{
  World, Write, Action, create_job, delete_object, patch_backup_status, patch_finalizers,
  patch_restore_status, remove_annotation, apply_config_map, apply_cronjob, delete_job,
  delete_cronjob, delete_config_map,
}
use strimzi_backup_operator.Jobs.Objects.{JobObject}
use strimzi_backup_operator.Reconcile.Hoare.{
  is_quiet, IsClosed, Pred, Keeps, Keeps->>=, Keeps-asks, Keeps-lift, Keeps-if, Keeps-done,
  Keeps-send, kept,
}
use strimzi_backup_operator.Reconcile.Backup.OneShot.{create_backup_job, run_once, one_shot}
use strimzi_backup_operator.Reconcile.Backup.Retain.{object_deletion}
use strimzi_backup_operator.Reconcile.Backup.Retain.Prunable.{IsPrunable, IsAllowed, AreAllowed}
use strimzi_backup_operator.Reconcile.Backup.Retain.Laws.{apply_retention_policy-Keeps}
use strimzi_backup_operator.Reconcile.Backup.Run.{
  run_steps, reconcile_live, dispatch, reconcile_backup,
}
use strimzi_backup_operator.Reconcile.Backup.Run.Laws.{reconcile_backup-dispatch}
use strimzi_backup_operator.Reconcile.Backup.Run.Quiet.{
  running-Keeps, trigger-Keeps, paused-Keeps, ensure_finalizer-Keeps, handle_cleanup-Keeps,
  resolve_source-Keeps, configure-Keeps, schedule_step-Keeps, check_job_completion-Keeps,
}

-- An invariant that no quiet write breaks, nor the creation of a Job.
module _ (I : Pred) (closed : IsClosed I) (w : World) (namespace : String) (backup : KafkaBackup)
    (creates : (log : List Write) (job : JobObject)
      → I log
      → I (record { namespace = namespace; action = create_job job } ∷ log)) where
  create_backup_job-Keeps :
      (cluster : ResolvedKafkaCluster) (auth : ResolvedAuth)
      → Keeps I (create_backup_job w namespace backup cluster auth)
  unfolding create_backup_job
  create_backup_job-Keeps cluster auth = Keeps-asks I _ _ λ at. Keeps-lift I _ _ λ job _.
      Keeps->>= I _ _ (Keeps-send I _ w namespace _ (λ log i. creates log job i))
        λ _. running-Keeps I closed w namespace _ _

  pub one_shot-Keeps :
      (cluster : ResolvedKafkaCluster) (auth : ResolvedAuth)
      → Keeps I (one_shot w namespace backup cluster auth)
  unfolding one_shot run_once
  one_shot-Keeps cluster auth =
      Keeps-if I _ _ _
        (Keeps-asks I _ _ λ at. Keeps-lift I _ _ λ jobs _.
          Keeps->>= I _ _ (Keeps-if I _ _ _ (create_backup_job-Keeps cluster auth) (Keeps-done I))
            λ _. Keeps-if I _ _ _ (trigger-Keeps I closed w namespace _) (Keeps-done I))
        (Keeps-done I)

  -- And which no deletion breaks that is allowed.
  module _ (named : unwrap_or backup.metadata.namespace "" ≡ namespace)
      (removes : (log : List Write) (path : String)
        → IsPrunable w namespace backup path
        → I log
        → I (object_deletion namespace path ∷ log)) where
    pub run_steps-Keeps :
        (cluster : ResolvedKafkaCluster) (auth : ResolvedAuth)
        → Keeps I (run_steps w namespace backup cluster auth)
    unfolding run_steps
    run_steps-Keeps cluster auth =
        Keeps->>= I _ _
          (schedule_step-Keeps I closed w namespace backup cluster auth backup.spec.schedule)
          λ _. Keeps->>= I _ _ (one_shot-Keeps cluster auth) λ _.
            Keeps->>= I _ _ (check_job_completion-Keeps I closed w backup _)
              λ _. apply_retention_policy-Keeps w namespace backup I closed removes named

    live-Keeps : Keeps I (reconcile_live w namespace backup)
    unfolding reconcile_live
    live-Keeps = Keeps->>= I _ _ (ensure_finalizer-Keeps I closed w namespace backup) λ _.
        Keeps->>= I _ _ (resolve_source-Keeps I closed w namespace backup) λ cluster.
          Keeps-asks I _ _ λ reads. Keeps-lift I _ _ λ auth _.
            Keeps->>= I _ _ (configure-Keeps I closed w namespace backup cluster auth)
              λ _. run_steps-Keeps cluster auth

    pub dispatch-Keeps : Keeps I (dispatch w backup namespace)
    unfolding dispatch
    dispatch-Keeps =
        Keeps-if I _ _ _ (handle_cleanup-Keeps I closed w namespace backup.metadata)
          (Keeps-if I _ _ _ (paused-Keeps I closed w namespace backup) live-Keeps)

module _ (w : World) (namespace : String) (backup : KafkaBackup) where
  quiet-IsAllowed : (a : Action) → is_quiet a ≡ true → IsAllowed w namespace backup a
  quiet-IsAllowed (create_job j) h = tt
  quiet-IsAllowed (delete_object p) h = cc
  quiet-IsAllowed (patch_backup_status n p) h = tt
  quiet-IsAllowed (patch_finalizers k n p) h = tt
  quiet-IsAllowed (patch_restore_status n p) h = tt
  quiet-IsAllowed (remove_annotation n k) h = tt
  quiet-IsAllowed (apply_config_map c) h = tt
  quiet-IsAllowed (apply_cronjob c) h = tt
  quiet-IsAllowed (delete_job p n) h = tt
  quiet-IsAllowed (delete_cronjob p n) h = tt
  quiet-IsAllowed (delete_config_map p n) h = tt

-- A reconciliation of a backup attempts to delete only those objects of the storage whose key is
-- under the folder of an id that its retention policy marks, in the history of its status merged with
-- what was discovered, and that no Job runs as, among the Jobs that were listed.
pub reconcile_backup-AreAllowed :
    (w : World) (backup : KafkaBackup) (namespace : String)
    → backup.metadata.namespace ≡ some namespace
    → AreAllowed w namespace backup (reconcile_backup w backup []).1
reconcile_backup-AreAllowed w backup namespace n =
    let I : Pred = AreAllowed w namespace backup in
    subst (λ r. I r.1) (sym (reconcile_backup-dispatch w backup namespace n))
      (kept I (dispatch w backup namespace) []
        (dispatch-Keeps I (λ log ns a q i. (quiet-IsAllowed w namespace backup a q, i)) w namespace
          backup (λ log job i. (tt, i)) (ap (λ o. unwrap_or o "") n) (λ log path h i. (h, i)))
        tt)
