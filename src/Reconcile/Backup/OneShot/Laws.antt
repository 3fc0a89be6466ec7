-- ===== src/Reconcile/Backup/OneShot/Laws.antt =====
-- When the one-shot step of src/reconcilers/backup.rs creates a Job, over every cluster.
use strimzi_backup_operator.Base.{
  ◌+◌, String, refl, ◌≤◌, Bool, true, false, ◌&&◌, ◌||◌, List, [], arith, any, all, is_empty,
  if◌then◌else◌,
}
use strimzi_backup_operator.Base.Int.{ℤ}
use strimzi_backup_operator.Error.{kube}
use strimzi_backup_operator.Crd.Backup.{KafkaBackup}
use strimzi_backup_operator.Crd.Status.{Condition}
use strimzi_backup_operator.JobState.{
  Job, job_succeeded, job_failed, classify_jobs, should_create_backup_job,
}
use strimzi_backup_operator.JobState.Create.{should_create_backup_job-classify_jobs}
use strimzi_backup_operator.Strimzi.Cluster.{ResolvedKafkaCluster}
use strimzi_backup_operator.Strimzi.Auth.{ResolvedAuth}
use strimzi_backup_operator.Reconcile.Server.{World, Op, lift, done}
use strimzi_backup_operator.Reconcile.Counting.{
  count, AtMost, AtMost->>=, AtMost-lift, AtMost-asks, AtMost-done, AtMost-if, AtMost-send,
  AtMost-send_other, AtMost-weaken,
}
use strimzi_backup_operator.Reconcile.Restore.Creates.{creates_job}
use strimzi_backup_operator.Reconcile.Backup.Status.{
  patch, patch_status, current_backup_status, set_conditions, update_status_running,
}
use strimzi_backup_operator.Reconcile.Backup.OneShot.{
  is_triggered, remove_trigger_annotation, create_backup_job, run_once, one_shot,
}

module _ (w : World) (namespace : String) where
  read_creates : (name : String) → AtMost creates_job 0 (current_backup_status w namespace name)
  unfolding current_backup_status lift
  read_creates name = record { at_most = λ log. omega arith }

  set_conditions-creates :
      (name : String) (g : ℤ) (cs : List Condition)
      → AtMost creates_job 0 (set_conditions w namespace name g cs)
  unfolding set_conditions patch_status patch
  set_conditions-creates name g cs =
      AtMost->>= creates_job 0 0 _ _ (read_creates name)
        λ s. AtMost-send_other creates_job kube w namespace _ refl

  running-creates :
      (name : String) (g : ℤ) → AtMost creates_job 0 (update_status_running w namespace name g)
  unfolding update_status_running
  running-creates name g = AtMost-asks creates_job 0 _ _ λ now. set_conditions-creates name g _

  create_backup_job-creates :
      (backup : KafkaBackup) (cluster : ResolvedKafkaCluster) (auth : ResolvedAuth)
      → AtMost creates_job 1 (create_backup_job w namespace backup cluster auth)
  unfolding create_backup_job
  create_backup_job-creates backup cluster auth = AtMost-asks creates_job 1 _ _ λ now.
      AtMost-lift creates_job 1 _ _ λ job.
        AtMost->>= creates_job 1 0 _ _ (AtMost-send creates_job _ w namespace _)
          λ _. running-creates _ _

  decided :
      (b : Bool) (m : Op (Unit {0}))
      → AtMost creates_job 1 m
      → AtMost creates_job (if b then 1 else 0) (if b then m else done)
  decided true m h = h
  decided false m h = AtMost-done creates_job 0

  run_once-creates :
      (backup : KafkaBackup) (cluster : ResolvedKafkaCluster) (auth : ResolvedAuth)
      (jobs : List Job)
      → AtMost creates_job
          ((if should_create_backup_job (classify_jobs jobs) (is_triggered backup) then 1 else 0)
            + 0)
          (run_once w namespace backup cluster auth jobs)
  unfolding run_once remove_trigger_annotation
  run_once-creates backup cluster auth jobs =
      AtMost->>= creates_job _ 0 _ _
        (decided (should_create_backup_job (classify_jobs jobs) (is_triggered backup)) _
          (create_backup_job-creates backup cluster auth))
        λ _.
          AtMost-if creates_job 0 _ _ _ (AtMost-send_other creates_job kube w namespace _ refl)
            (AtMost-done creates_job 0)

  run_once_one :
      (backup : KafkaBackup) (cluster : ResolvedKafkaCluster) (auth : ResolvedAuth)
      (jobs : List Job)
      → AtMost creates_job 1 (run_once w namespace backup cluster auth jobs)
  run_once_one backup cluster auth jobs =
      AtMost-weaken creates_job _ 1 _ (ground arith) (run_once-creates backup cluster auth jobs)

-- Over the Jobs that are listed, the one-shot step attempts to create at most one Job, and none unless
-- there is no Job at all or the run is triggered by hand and a Job has succeeded or every Job failed.
pub run_once_creates_if :
    (w : World) (namespace : String) (backup : KafkaBackup) (cluster : ResolvedKafkaCluster)
    (auth : ResolvedAuth) (jobs : List Job)
    → count creates_job (run_once w namespace backup cluster auth jobs []).1 ≤ (
        if is_empty jobs || (is_triggered backup && (any job_succeeded jobs || all job_failed jobs))
        then 1
        else 0)
run_once_creates_if w namespace backup cluster auth jobs = ground (
  arith,
  (run_once-creates w namespace backup cluster auth jobs).at_most [],
  should_create_backup_job-classify_jobs jobs (is_triggered backup),
)

pub one_shot-creates :
    (w : World) (namespace : String) (backup : KafkaBackup) (cluster : ResolvedKafkaCluster)
    (auth : ResolvedAuth)
    → AtMost creates_job 1 (one_shot w namespace backup cluster auth)
unfolding one_shot
one_shot-creates w namespace backup cluster auth =
    AtMost-if creates_job 1 _ _ _
      (AtMost-asks creates_job 1 _ _ λ reply.
        AtMost-lift creates_job 1 _ _ λ jobs. run_once_one w namespace backup cluster auth jobs)
      (AtMost-done creates_job 1)
