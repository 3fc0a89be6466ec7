-- ===== src/Tests/Backups.antt =====
-- Steps of the reconciliation of a backup, over a cluster that accepts every write.
use strimzi_backup_operator.Base.{
  List, ◌==◌, ◌≡◌, refl, ◌≤◌, false, not, ◌&&◌, ◌||◌, some, [], ◌∷◌, any, all, is_empty,
  if◌then◌else◌,
}
use strimzi_backup_operator.Base.Int.{pos}
use strimzi_backup_operator.Error.{ok}
use strimzi_backup_operator.Crd.Backup.{KafkaBackup}
use strimzi_backup_operator.Crd.Status.{default_backup_status}
use strimzi_backup_operator.JobState.{Job, job_succeeded, job_failed}
use strimzi_backup_operator.Strimzi.Auth.{no_auth}
use strimzi_backup_operator.Retention.Policy.{member}
use strimzi_backup_operator.Reconcile.Counting.{count}
use strimzi_backup_operator.Reconcile.Restore.Creates.{creates_job}
use strimzi_backup_operator.Reconcile.Backup.Outcome.{
  is_terminal, latest_terminal, check_job_completion,
}
use strimzi_backup_operator.Reconcile.Backup.Outcome.Laws.{is_after, latest_terminal-greatest}
use strimzi_backup_operator.Reconcile.Backup.Outcome.Recorded.{check_job_completion_once}
use strimzi_backup_operator.Reconcile.Backup.Status.{completed_status}
use strimzi_backup_operator.Reconcile.Backup.Outcome.{history_entry}
use strimzi_backup_operator.Status.{ready}
use strimzi_backup_operator.Strimzi.Reads.{found}
use strimzi_backup_operator.Crd.Status.{KafkaBackupStatus}
use strimzi_backup_operator.Reconcile.Server.{World, patch_backup_status, whole, ◌>>=◌, asks, lift}
use strimzi_backup_operator.Reconcile.Backup.Active.{
  is_running, active_ids, keep_active, runs_as, member-keep_active,
}
use strimzi_backup_operator.Reconcile.Backup.OneShot.{is_triggered, run_once}
use strimzi_backup_operator.Reconcile.Backup.OneShot.Laws.{run_once_creates_if}
use strimzi_backup_operator.Tests.Decisions.{done, running, broken}
use strimzi_backup_operator.Tests.Restores.{cluster}
use strimzi_backup_operator.Tests.Selectors.{backup, kafka}

-- A cluster that has the backup, and these Jobs.
abbrev holding : List Job → World
holding jobs = record (cluster jobs) { backup = λ log namespace name. found backup }

-- What is written when the first Job has succeeded.
abbrev written_status : KafkaBackupStatus
unfolding completed_status ready history_entry
written_status =
    completed_status default_backup_status
      (ready (pos 100) "BackupCompleted" "Backup completed successfully") (pos 1)
      (history_entry done (pos 100))

abbrev recorded : KafkaBackup
recorded = record backup { status = some written_status }

done_is_written :
    (check_job_completion (holding (done ∷ running ∷ [])) backup (pos 1) []).1
    ≡ record {
      namespace = "kafka";
      action = patch_backup_status "restore-1" (whole written_status);
    }
      ∷ []
unfolding check_job_completion ◌>>=◌ asks lift
done_is_written = refl

broken_is_latest : latest_terminal (done ∷ broken ∷ running ∷ []) ≡ some broken
unfolding latest_terminal
broken_is_latest = refl

done_is_latest : latest_terminal (done ∷ running ∷ []) ≡ some done
unfolding latest_terminal
done_is_latest = refl

latest_terminal-greatest_example :
    any (λ j. is_terminal j && is_after broken j) (done ∷ broken ∷ running ∷ []) ≡ false
latest_terminal-greatest_example =
    latest_terminal-greatest (done ∷ broken ∷ running ∷ []) broken broken_is_latest

check_job_completion_once_example :
    check_job_completion (cluster (done ∷ running ∷ [])) recorded (pos 2) [] ≡ (ok tt, [])
check_job_completion_once_example =
    check_job_completion_once (holding (done ∷ running ∷ [])) (cluster (done ∷ running ∷ [])) backup
      recorded (pos 1) (pos 2) (done ∷ running ∷ []) (done ∷ running ∷ []) done "kafka" "restore-1"
      written_status written_status refl done_is_latest done_is_written refl refl refl refl
      done_is_latest

member-keep_active_example :
    member "nightly-2" (keep_active (active_ids false "nightly" (running ∷ [])) ("nightly-2" ∷ []))
    ≡ (member "nightly-2" ("nightly-2" ∷ [])
        && not (
            any (runs_as "nightly-2") (running ∷ [])
            || (false && ("nightly" == "nightly-2" && any is_running (running ∷ [])))))
member-keep_active_example =
    member-keep_active false "nightly" "nightly-2" (running ∷ []) ("nightly-2" ∷ [])

run_once_creates_if_example :
    count creates_job (run_once (cluster []) "kafka" backup kafka no_auth (running ∷ []) []).1 ≤ (
      if is_empty (running ∷ [])
        || (is_triggered backup
            && (any job_succeeded (running ∷ []) || all job_failed (running ∷ [])))
      then 1
      else 0)
run_once_creates_if_example =
    run_once_creates_if (cluster []) "kafka" backup kafka no_auth (running ∷ [])
