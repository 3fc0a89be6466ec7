-- ===== src/Reconcile/Backup/Outcome.antt =====
-- `check_job_completion` of src/reconcilers/backup.rs: the latest Job that ended is recorded.
pub mod Laws
pub mod Recorded
use strimzi_backup_operator.Base.{
  String, ◌==◌, Bool, true, false, not, ◌||◌, Option, none, some, List, [], ◌∷◌, retain,
  is_some_and, unwrap_or, and_then, if◌then◌else◌,
}
use strimzi_backup_operator.Base.Int.{ℤ, pos, ltb_ℤ}
use strimzi_backup_operator.Base.Text.{format}
use strimzi_backup_operator.Crd.Status.{Time, BackupStatus, BackupHistoryEntry}
use strimzi_backup_operator.Crd.Backup.{KafkaBackup, name_any}
use strimzi_backup_operator.JobState.{Job, job_succeeded, job_failed, name_of}
use strimzi_backup_operator.Status.{condition_type_error, find_condition, error_conditions}
use strimzi_backup_operator.Reconcile.Server.{World, Op, ◌>>=◌, asks, lift, answered, done}
use strimzi_backup_operator.Reconcile.Backup.Status.{update_status_completed, set_conditions}

unfoldable pub is_terminal : Job → Bool
unfolding job_succeeded job_failed
is_terminal job = job_succeeded job || job_failed job

-- The key of `max_by_key`: an absent time is below every time.
unfoldable pub starts_before : Option Time → Option Time → Bool
starts_before none none = false
starts_before none (some t) = true
starts_before (some s) none = false
starts_before (some s) (some t) = ltb_ℤ s t

abbrev pub start_of : Job → Option Time
start_of job = and_then job.status (λ s. s.start_time)

-- `max_by_key`: the last of the greatest.
unfoldable pub latest_from : Job → List Job → Job
unfolding starts_before
latest_from best [] = best
latest_from best (job ∷ jobs) =
    latest_from (if starts_before (start_of job) (start_of best) then best else job) jobs

unfoldable pub latest : List Job → Option Job
unfolding latest_from
latest [] = none
latest (job ∷ jobs) = some (latest_from job jobs)

unfoldable pub latest_terminal : List Job → Option Job
unfolding latest is_terminal
latest_terminal jobs = latest (retain is_terminal jobs)

unfoldable pub backup_jobs_selector : String → String
unfolding format
backup_jobs_selector name =
    format ("kafkabackup.com/backup=" ∷ name ∷ ",kafkabackup.com/type=backup" ∷ [])

unfoldable pub history_entry : Job → Time → BackupHistoryEntry
history_entry job now = record {
  id = name_of job;
  status = BackupStatus.completed;
  start_time = unwrap_or (start_of job) now;
  completion_time = some (unwrap_or (and_then job.status (λ s. s.completion_time)) now);
  size_bytes = none;
  topics_backed_up = none;
  partitions_backed_up = none;
}

unfoldable pub failure_message : Job → String
unfolding format
failure_message job = format ("Backup job " ∷ name_of job ∷ " failed" ∷ [])

-- Whether the status has the outcome of the Job already.
unfoldable pub already_recorded : KafkaBackup → Job → Bool
unfolding job_succeeded find_condition failure_message
already_recorded backup job =
    if job_succeeded job
    then is_some_and (and_then backup.status (λ s. s.last_backup)) (λ lb. lb.id == name_of job)
    else is_some_and
        (and_then backup.status (λ s. find_condition s.conditions condition_type_error))
        λ c. is_some_and c.message (λ m. m == failure_message job)

unfoldable pub record_outcome : World → String → KafkaBackup → ℤ → Job → Op (Unit {0})
unfolding job_succeeded update_status_completed history_entry set_conditions error_conditions
    failure_message
record_outcome w namespace backup generation job =
    let name = name_any backup.metadata in
    if job_succeeded job
    then (asks w.now >>= λ now.
        update_status_completed w namespace name generation (history_entry job now))
    else (asks w.now >>= λ now.
        set_conditions w namespace name generation
          (error_conditions now "BackupFailed" (failure_message job)))

unfoldable pub record_latest : World → String → KafkaBackup → ℤ → Option Job → Op (Unit {0})
unfolding already_recorded record_outcome
record_latest w namespace backup generation none = done
record_latest w namespace backup generation (some job) =
    if already_recorded backup job then done else record_outcome w namespace backup generation job

unfoldable pub check_job_completion : World → KafkaBackup → ℤ → Op (Unit {0})
unfolding backup_jobs_selector latest_terminal record_latest
check_job_completion w backup generation = do
  let namespace = unwrap_or backup.metadata.namespace ""
  reply ← asks (λ log. w.jobs log namespace (backup_jobs_selector (name_any backup.metadata)))
  jobs ← lift (answered reply)
  record_latest w namespace backup generation (latest_terminal jobs)
