-- ===== src/Reconcile/Restore/Deletion.antt =====
-- What src/reconcilers/restore.rs writes for a deleted restore, whatever the cluster answers.
use strimzi_backup_operator.Base.{
  String, ◌≡◌, refl, ap, ◌∙◌, true, Option, none, some, List, [], ◌∷◌, is_some, unwrap_or,
}
use strimzi_backup_operator.Base.Text.{format}
use strimzi_backup_operator.Error.{KubeError, ok, kube}
use strimzi_backup_operator.Crd.Backup.{ObjectMeta, name_any}
use strimzi_backup_operator.Crd.Restore.{KafkaRestore}
use strimzi_backup_operator.JobState.{Job}
use strimzi_backup_operator.Strimzi.Reads.{Reply, found}
use strimzi_backup_operator.Reconcile.Server.{
  World, Write, DeleteParams, background, ◌>>=◌, after, lift, asks, done, ignoring, send_or,
  outcome, patch_finalizers, kafka_restore, null_finalizers, delete_job, delete_config_map,
}
use strimzi_backup_operator.Reconcile.Restore.{dispatch, reconcile_restore}
use strimzi_backup_operator.Reconcile.Restore.Cleanup.{
  handle_cleanup, cleanup_selector, delete_jobs, delete_listed, remove_finalizer,
}
use strimzi_backup_operator.Reconcile.Restore.Safety.{reconcile_restore-dispatch}

dispatch_deleted :
    (w : World) (restore : KafkaRestore) (namespace : String)
    → is_some restore.metadata.deletion_timestamp ≡ true
    → dispatch w restore namespace [] ≡ handle_cleanup w restore.metadata namespace []
unfolding dispatch
dispatch_deleted w restore namespace deleted = rw deleted refl

-- The parameters of a deletion whose dependents are deleted too, in the background.
abbrev pub in_background : DeleteParams
in_background = record { propagation_policy = some background }

-- The writes of a cleanup.
abbrev pub job_deletion : String → Job → Write
job_deletion namespace job = record {
  namespace = namespace;
  action = delete_job in_background (unwrap_or job.name "");
}

abbrev pub config_map_deletion : String → String → Write
config_map_deletion namespace name = record {
  namespace = namespace;
  action = delete_config_map in_background (format (name ∷ "-config" ∷ []));
}

abbrev pub finalizer_removal : String → String → Write
finalizer_removal namespace name = record {
  namespace = namespace;
  action = patch_finalizers kafka_restore name null_finalizers;
}

-- The log after a deletion of each Job, the newest first.
abbrev pub job_deletions : String → List Job → List Write → List Write
job_deletions namespace [] log = log
job_deletions namespace (job ∷ jobs) log =
    job_deletions namespace jobs (job_deletion namespace job ∷ log)

abbrev pub listed : Reply (List Job) → List Job
listed (found jobs) = jobs
listed (Reply.failed e) = []

-- What has been written when the finalizer is removed.
abbrev pub deletions : World → String → String → List Write
deletions w namespace name =
    config_map_deletion namespace name
    ∷ job_deletions namespace (listed (w.jobs [] namespace (cleanup_selector name))) []

ignored : (r : Option KubeError) (log : List Write) → ignoring (outcome kube r, log) ≡ (ok tt, log)
ignored none log = refl
ignored (some e) log = refl

delete_jobs-eq :
    (w : World) (namespace : String) (jobs : List Job) (log : List Write)
    → delete_jobs w namespace jobs log ≡ (ok tt, job_deletions namespace jobs log)
unfolding delete_jobs ◌>>=◌ send_or done lift
delete_jobs-eq w namespace [] log = refl
delete_jobs-eq w namespace (job ∷ jobs) log =
    ap (λ s. after s λ _. delete_jobs w namespace jobs)
      (ignored (w.answer log (job_deletion namespace job)) (job_deletion namespace job ∷ log))
    ∙ delete_jobs-eq w namespace jobs (job_deletion namespace job ∷ log)

delete_listed-eq :
    (w : World) (namespace : String) (reply : Reply (List Job)) (log : List Write)
    → delete_listed w namespace reply log ≡ (ok tt, job_deletions namespace (listed reply) log)
unfolding delete_listed done lift
delete_listed-eq w namespace (found jobs) log = delete_jobs-eq w namespace jobs log
delete_listed-eq w namespace (Reply.failed e) log = refl

handle_cleanup-eq :
    (w : World) (metadata : ObjectMeta) (namespace : String)
    → let name = name_any metadata in
      handle_cleanup w metadata namespace [] ≡ (
        outcome kube (w.answer (deletions w namespace name) (finalizer_removal namespace name)),
        finalizer_removal namespace name ∷ deletions w namespace name,
      )
unfolding handle_cleanup ◌>>=◌ asks send_or remove_finalizer
handle_cleanup-eq w metadata namespace =
    let name = name_any metadata in
    let reply = w.jobs [] namespace (cleanup_selector name) in
    let log = job_deletions namespace (listed reply) [] in
    rw (delete_listed-eq w namespace reply []) (
      rw (
        ignored (w.answer log (config_map_deletion namespace name))
          (config_map_deletion namespace name ∷ log)))

-- A deleted restore, paused or not, gets a deletion of each Job that is listed, then one of its
-- ConfigMap, both with background propagation, and then the removal of the finalizer, whichever of the
-- deletions fail; the result is that of the removal.
pub reconcile_restore_deleted :
    (w : World) (restore : KafkaRestore) (namespace : String)
    → restore.metadata.namespace ≡ some namespace
    → is_some restore.metadata.deletion_timestamp ≡ true
    → reconcile_restore w restore [] ≡ (
      outcome kube (
          w.answer
            (deletions w namespace (name_any restore.metadata))
            (finalizer_removal namespace (name_any restore.metadata))),
      finalizer_removal namespace (name_any restore.metadata)
          ∷ deletions w namespace (name_any restore.metadata),
    )
reconcile_restore_deleted w restore namespace n deleted =
    reconcile_restore-dispatch w restore namespace n
    ∙ dispatch_deleted w restore namespace deleted
    ∙ handle_cleanup-eq w restore.metadata namespace
