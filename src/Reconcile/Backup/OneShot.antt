-- ===== src/Reconcile/Backup/OneShot.antt =====
-- Steps 6 and 7 of `reconcile_backup` of src/reconcilers/backup.rs: the Job of a run that has no
-- schedule or is triggered by hand.
pub mod Laws
use strimzi_backup_operator.Base.{
  ℕ, String, ◌==◌, ◌≡◌, refl, ◌≤◌, Bool, true, false, Option, none, some, List, [], ◌∷◌, arith,
  find, is_some_and, is_none, ◌||◌, unwrap_or, if◌then◌else◌,
}
use strimzi_backup_operator.Base.Int.{ℤ, pos}
use strimzi_backup_operator.Base.Text.{format}
use strimzi_backup_operator.Error.{kube, job_creation_failed, display}
use strimzi_backup_operator.Crd.Backup.{KafkaBackup, name_any}
use strimzi_backup_operator.JobState.{Job, classify_jobs, should_create_backup_job}
use strimzi_backup_operator.Strimzi.Cluster.{ResolvedKafkaCluster}
use strimzi_backup_operator.Strimzi.Auth.{ResolvedAuth}
use strimzi_backup_operator.Jobs.Build.{build_backup_job}
use strimzi_backup_operator.Reconcile.Server.{
  World, Op, ◌>>=◌, asks, lift, answered, done, send, send_or, create_job, remove_annotation,
}
use strimzi_backup_operator.Reconcile.Shared.{job_service_account_name}
use strimzi_backup_operator.Reconcile.Backup.Status.{update_status_running}
use strimzi_backup_operator.Reconcile.Backup.Outcome.{backup_jobs_selector}

abbrev pub trigger_annotation : String
trigger_annotation = "kafkabackup.com/trigger"

abbrev pub trigger_value_now : String
trigger_value_now = "now"

unfoldable pub is_triggered : KafkaBackup → Bool
is_triggered backup =
    is_some_and (find (λ a. a.0 == trigger_annotation) backup.metadata.annotations)
      λ a. a.1 == trigger_value_now

unfoldable pub remove_trigger_annotation : World → String → String → Op (Unit {0})
unfolding send_or
remove_trigger_annotation w namespace name =
    send w namespace (remove_annotation name trigger_annotation)

unfoldable pub create_backup_job :
    World → String → KafkaBackup → ResolvedKafkaCluster → ResolvedAuth → Op (Unit {0})
unfolding format build_backup_job job_service_account_name send_or display update_status_running
create_backup_job w namespace backup cluster auth = do
  let name = name_any backup.metadata
  now ← asks w.now
  let job_name = format (name ∷ "-" ∷ w.timestamp now ∷ [])
  job ← lift (
      build_backup_job w.conversions backup job_name (format (name ∷ "-config" ∷ [])) cluster auth
        (job_service_account_name w.service_account))
  _ ← send_or (λ e. job_creation_failed (display e)) w namespace (create_job job)
  update_status_running w namespace name (unwrap_or backup.metadata.generation (pos 0))

-- What the Jobs that exist let be done.
unfoldable pub run_once :
    World → String → KafkaBackup → ResolvedKafkaCluster → ResolvedAuth → List Job → Op (Unit {0})
unfolding should_create_backup_job classify_jobs is_triggered create_backup_job
    remove_trigger_annotation
run_once w namespace backup cluster auth jobs =
    (if should_create_backup_job (classify_jobs jobs) (is_triggered backup)
      then create_backup_job w namespace backup cluster auth
      else done)
    >>= λ _.
        if is_triggered backup
        then remove_trigger_annotation w namespace (name_any backup.metadata)
        else done

unfoldable pub one_shot :
    World → String → KafkaBackup → ResolvedKafkaCluster → ResolvedAuth → Op (Unit {0})
unfolding is_triggered backup_jobs_selector run_once
one_shot w namespace backup cluster auth =
    if is_none backup.spec.schedule || is_triggered backup
    then (asks (λ log. w.jobs log namespace (backup_jobs_selector (name_any backup.metadata)))
        >>= λ reply.
            lift (answered reply) >>= λ jobs. run_once w namespace backup cluster auth jobs)
    else done
