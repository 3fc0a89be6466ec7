-- ===== src/Reconcile/Backup/Run/Order.antt =====
-- The order of the writes of one reconciliation of src/reconcilers/backup.rs.
use strimzi_backup_operator.Base.{
  String, eq_refl, ◌≡◌, refl, sym, ap, subst, true, some, List, [], ◌∷◌, arith, unwrap_or,
}
use strimzi_backup_operator.Base.Text.{format}
use strimzi_backup_operator.Error.{kube}
use strimzi_backup_operator.Crd.Backup.{KafkaBackup, name_any}
use strimzi_backup_operator.Strimzi.Cluster.{ResolvedKafkaCluster}
use strimzi_backup_operator.Strimzi.Auth.{ResolvedAuth}
use strimzi_backup_operator.Reconcile.Server.{World, Write, create_job}
use strimzi_backup_operator.Jobs.Objects.{JobObject}
use strimzi_backup_operator.Reconcile.Backup.Retain.{object_deletion}
use strimzi_backup_operator.Reconcile.Hoare.{
  IsClosed, Pred, Keeps, Hoare, Hoare-first, Hoare-lift, Hoare-asks, Hoare-send, Hoare->>=,
  Hoare-weaken, Keeps-if, kept,
}
use strimzi_backup_operator.Reconcile.Ordering.{is_configured, is_ordered}
use strimzi_backup_operator.Reconcile.Backup.Run.{
  create_or_update_config_map, configure, run_steps, reconcile_live, dispatch, reconcile_backup,
}
use strimzi_backup_operator.Reconcile.Backup.Run.Laws.{reconcile_backup-dispatch}
use strimzi_backup_operator.Reconcile.Backup.Run.Creates.{quiet-creates}
use strimzi_backup_operator.Reconcile.Backup.Run.Deletes.{run_steps-Keeps}
use strimzi_backup_operator.Reconcile.Backup.Run.Quiet.{
  paused-Keeps, ensure_finalizer-Keeps, handle_cleanup-Keeps, resolve_source-Keeps,
}

abbrev pub config_map_of : KafkaBackup → String
config_map_of backup = format (name_any backup.metadata ∷ "-config" ∷ [])

abbrev job_creation : String → JobObject → Write
job_creation namespace job = record { namespace = namespace; action = create_job job }

module _ (w : World) (namespace : String) (backup : KafkaBackup) where
  abbrev Ordered : Pred
  Ordered log = is_ordered w (config_map_of backup) log ≡ true

  -- The ConfigMap has been accepted, too.
  abbrev Ready : Pred
  Ready log = (is_configured w (config_map_of backup) log ≡ true) × Ordered log

  Ordered-IsClosed : IsClosed Ordered
  Ordered-IsClosed log ns a q i = ground (arith, quiet-creates a q, i)

  Ready-any : (log : List Write) (write : Write) → Ready log → Ready (write ∷ log)
  Ready-any log write (c, i) = (ground (arith, c), ground (arith, c, i))

  configure-Ready :
      (cluster : ResolvedKafkaCluster) (auth : ResolvedAuth)
      → Hoare Ordered (configure w namespace backup cluster auth) (λ _. Ready) Ordered
  unfolding configure create_or_update_config_map
  configure-Ready cluster auth =
      Hoare-first Ordered (λ _. Ready) Ordered _ _ _ (Hoare-lift Ordered _)
        λ config.
          Hoare-first Ordered (λ _. Ready) Ordered _ _ _ (Hoare-lift Ordered _)
            λ yaml.
              Hoare-send Ordered Ready Ordered kube w namespace _
                (λ log i accepted.
                  (ground (arith, accepted, eq_refl (config_map_of backup)), ground (arith, i)))
                (λ log i. ground (arith, i))

  run_steps-Ready :
      (cluster : ResolvedKafkaCluster) (auth : ResolvedAuth)
      → unwrap_or backup.metadata.namespace "" ≡ namespace
      → Hoare Ready (run_steps w namespace backup cluster auth) (λ _. Ordered) Ordered
  run_steps-Ready cluster auth named =
      Hoare-weaken Ready _ (λ _. Ready) (λ _. Ordered) Ready Ordered (λ _ log r. r.1) (λ log r. r.1)
        (run_steps-Keeps Ready
          (λ log ns a q r. Ready-any log (record { namespace = ns; action = a }) r) w namespace
          backup (λ log job r. Ready-any log (job_creation namespace job) r) named
          (λ log path h r. Ready-any log (object_deletion namespace path) r) cluster auth)

  live-Ordered :
      unwrap_or backup.metadata.namespace "" ≡ namespace
      → Keeps Ordered (reconcile_live w namespace backup)
  unfolding reconcile_live
  live-Ordered named =
      let I = Ordered in
      Hoare->>= I (λ _. I) (λ _. I) I _ _
        (ensure_finalizer-Keeps I Ordered-IsClosed w namespace backup)
        λ _.
          Hoare->>= I (λ _. I) (λ _. I) I _ _
            (resolve_source-Keeps I Ordered-IsClosed w namespace backup)
            λ cluster.
              Hoare-first I (λ _. I) I _ _ _ (Hoare-asks I _)
                λ reads.
                  Hoare-first I (λ _. I) I _ _ _ (Hoare-lift I _)
                    λ auth.
                      Hoare->>= I (λ _. Ready) (λ _. I) I _ _ (configure-Ready cluster auth)
                        λ _. run_steps-Ready cluster auth named

  dispatch-Ordered :
      unwrap_or backup.metadata.namespace "" ≡ namespace
      → Keeps Ordered (dispatch w backup namespace)
  unfolding dispatch
  dispatch-Ordered named =
      let I = Ordered in
      Keeps-if I _ _ _ (handle_cleanup-Keeps I Ordered-IsClosed w namespace backup.metadata)
        (Keeps-if I _ _ _ (paused-Keeps I Ordered-IsClosed w namespace backup) (live-Ordered named))

-- A reconciliation of a backup attempts to create a Job only after the cluster has accepted the
-- resource's ConfigMap in that same reconciliation.
pub reconcile_backup_ordered :
    (w : World) (backup : KafkaBackup) (namespace : String)
    → backup.metadata.namespace ≡ some namespace
    → is_ordered w (config_map_of backup) (reconcile_backup w backup []).1 ≡ true
reconcile_backup_ordered w backup namespace n =
    subst (λ r. is_ordered w (config_map_of backup) r.1 ≡ true)
      (sym (reconcile_backup-dispatch w backup namespace n))
      (kept (Ordered w namespace backup) _ []
        (dispatch-Ordered w namespace backup (ap (λ o. unwrap_or o "") n)) refl)
