-- ===== src/Reconcile/Backup/Cleanup/Laws.antt =====
-- What the cleanup of a deleted KafkaBackup writes, whatever the cluster answers.
use strimzi_backup_operator.Base.{
  String, ◌≡◌, refl, ◌∙◌, ap, Option, none, some, List, [], ◌∷◌, unwrap_or,
}
use strimzi_backup_operator.Base.Text.{format}
use strimzi_backup_operator.Error.{ok, kube, KubeError}
use strimzi_backup_operator.JobState.{Job}
use strimzi_backup_operator.Crd.Backup.{ObjectMeta, name_any}
use strimzi_backup_operator.Strimzi.Reads.{Reply, found, failed}
use strimzi_backup_operator.Reconcile.Server.{
  World, Write, DeleteParams, background, Action, ◌>>=◌, after, asks, lift, done, ignoring, send_or,
  outcome, kafka_backup, null_finalizers, patch_finalizers, delete_job, delete_cronjob,
  delete_config_map,
}
use strimzi_backup_operator.Reconcile.Backup.Cleanup.{
  remove_finalizer, try_delete, delete_each, delete_found, backup_cleanup_selector, handle_cleanup,
}

abbrev pub written : String → Action → Write
written namespace action = record { namespace = namespace; action = action }

-- The parameters of a deletion whose dependents are deleted too, in the background.
abbrev pub in_background : DeleteParams
in_background = record { propagation_policy = some background }

-- The log after a deletion of each Job, the newest first.
abbrev pub each_deleted : String → List Job → List Write → List Write
each_deleted namespace [] log = log
each_deleted namespace (job ∷ jobs) log =
    each_deleted namespace jobs
      (written namespace (delete_job in_background (unwrap_or job.name "")) ∷ log)

abbrev pub found_jobs : Reply (List Job) → List Job
found_jobs (found jobs) = jobs
found_jobs (failed e) = []

-- What has been written when the finalizer is removed: the Jobs that are found first, then the
-- CronJob, then the ConfigMap.
abbrev pub cleaned : World → String → String → List Write
cleaned w namespace name =
    written namespace (delete_config_map in_background (format (name ∷ "-config" ∷ [])))
    ∷ written namespace (delete_cronjob in_background (format (name ∷ "-scheduled" ∷ [])))
    ∷ each_deleted namespace (found_jobs (w.jobs [] namespace (backup_cleanup_selector name))) []

abbrev pub released : String → String → Write
released namespace name = written namespace (patch_finalizers kafka_backup name null_finalizers)

dropped : (r : Option KubeError) (log : List Write) → ignoring (outcome kube r, log) ≡ (ok tt, log)
dropped none log = refl
dropped (some e) log = refl

try_delete-eq :
    (w : World) (namespace : String) (a : Action) (log : List Write)
    → try_delete w namespace a log ≡ (ok tt, written namespace a ∷ log)
unfolding try_delete send_or
try_delete-eq w namespace a log =
    dropped (w.answer log (written namespace a)) (written namespace a ∷ log)

delete_each-eq :
    (w : World) (namespace : String) (jobs : List Job) (log : List Write)
    → delete_each w namespace jobs log ≡ (ok tt, each_deleted namespace jobs log)
unfolding delete_each ◌>>=◌ done lift
delete_each-eq w namespace [] log = refl
delete_each-eq w namespace (job ∷ jobs) log =
    let a = delete_job in_background (unwrap_or job.name "") in
    ap (λ s. after s λ _. delete_each w namespace jobs) (try_delete-eq w namespace a log)
    ∙ delete_each-eq w namespace jobs (written namespace a ∷ log)

delete_found-eq :
    (w : World) (namespace : String) (reply : Reply (List Job)) (log : List Write)
    → delete_found w namespace reply log ≡ (ok tt, each_deleted namespace (found_jobs reply) log)
unfolding delete_found done lift
delete_found-eq w namespace (found jobs) log = delete_each-eq w namespace jobs log
delete_found-eq w namespace (failed e) log = refl

-- The cleanup of a backup attempts to delete each Job that is listed, then the CronJob, then the
-- ConfigMap, and then to remove the finalizer, whichever of the deletions fail; the result is that of
-- the removal.
pub handle_cleanup_writes :
    (w : World) (metadata : ObjectMeta) (namespace : String)
    → handle_cleanup w metadata namespace [] ≡ (
      outcome kube (
          w.answer
            (cleaned w namespace (name_any metadata))
            (released namespace (name_any metadata))),
      released namespace (name_any metadata) ∷ cleaned w namespace (name_any metadata),
    )
unfolding handle_cleanup ◌>>=◌ asks remove_finalizer send_or
handle_cleanup_writes w metadata namespace =
    rw (delete_found-eq, try_delete-eq) (rw try_delete-eq refl)
