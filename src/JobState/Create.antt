-- ===== src/JobState/Create.antt =====
-- When `should_create_restore_job` and `should_create_backup_job` of src/jobs/job_state.rs let a
-- Job be created, in terms of the Jobs that exist.
use strimzi_backup_operator.Base.{
  ◌≡◌, refl, Bool, true, false, not, ◌&&◌, ◌||◌, List, [], ◌∷◌, arith, any, all, find-eq-some,
  is_empty,
}
use strimzi_backup_operator.JobState.{
  Job, JobsState, no_jobs, in_progress, succeeded, failed, job_succeeded, job_failed, classify_jobs,
  should_create_restore_job, should_create_backup_job,
}
use strimzi_backup_operator.JobState.Classify.{Describes, classify_jobs-Describes, all-eq-not-any}

create_restore_of_Describes :
    (s : JobsState) (jobs : List Job)
    → Describes s jobs
    → should_create_restore_job s ≡ is_empty jobs
unfolding should_create_restore_job
create_restore_of_Describes no_jobs jobs h = ground arith
create_restore_of_Describes in_progress [] h = ground arith
create_restore_of_Describes (succeeded n) [] (j, e, q) = ground arith
create_restore_of_Describes (failed n) [] (a, b, (j, rest, e, q)) = ground arith
create_restore_of_Describes in_progress (j ∷ jobs) h = refl
create_restore_of_Describes (succeeded n) (j ∷ jobs) h = refl
create_restore_of_Describes (failed n) (j ∷ jobs) h = refl

-- A restore Job is created exactly if the restore has no Job at all.
pub should_create_restore_job-classify_jobs :
    (jobs : List Job) → should_create_restore_job (classify_jobs jobs) ≡ is_empty jobs
should_create_restore_job-classify_jobs jobs =
    create_restore_of_Describes (classify_jobs jobs) jobs (classify_jobs-Describes jobs)

create_backup_of_Describes :
    (s : JobsState) (jobs : List Job) (triggered : Bool)
    → Describes s jobs
    → should_create_backup_job s triggered
      ≡ (is_empty jobs || (triggered && (any job_succeeded jobs || all job_failed jobs)))
unfolding should_create_backup_job
create_backup_of_Describes no_jobs jobs t h = rw h
create_backup_of_Describes in_progress [] t h = ground arith
create_backup_of_Describes in_progress (j ∷ jobs) t (none_done, busy) =
    ground (arith, all-eq-not-any (j ∷ jobs))
create_backup_of_Describes (succeeded n) [] t (j, e, q) = ground arith
create_backup_of_Describes (succeeded n) (i ∷ jobs) t (j, e, q) =
    ground (arith, find-eq-some job_succeeded (i ∷ jobs) j)
create_backup_of_Describes (failed n) jobs t (none_done, every, (j, rest, split, q)) = ground arith

-- A backup Job is created exactly if there is no Job at all, or the run is triggered by hand and a
-- Job has succeeded or every Job has failed.
pub should_create_backup_job-classify_jobs :
    (jobs : List Job) (triggered : Bool)
    → should_create_backup_job (classify_jobs jobs) triggered
      ≡ (is_empty jobs || (triggered && (any job_succeeded jobs || all job_failed jobs)))
should_create_backup_job-classify_jobs jobs triggered =
    create_backup_of_Describes (classify_jobs jobs) jobs triggered (classify_jobs-Describes jobs)

-- A Job that has reached no terminal state.
abbrev pub is_active : Job → Bool
is_active j = not (job_succeeded j) && not (job_failed j)

active_not_all_failed : (jobs : List Job) → any is_active jobs ≡ true → all job_failed jobs ≡ false
active_not_all_failed [] h = ground arith
active_not_all_failed (j ∷ jobs) h = ground (arith, active_not_all_failed jobs)

-- While a Job is active, a triggered run creates another one exactly if some Job has succeeded: the
-- trigger then stacks onto the active Job.
pub triggered_stacks :
    (jobs : List Job)
    → any is_active jobs ≡ true
    → should_create_backup_job (classify_jobs jobs) true ≡ any job_succeeded jobs
triggered_stacks [] active = ground arith
triggered_stacks (j ∷ jobs) active = ground (
  arith,
  should_create_backup_job-classify_jobs (j ∷ jobs) true,
  active_not_all_failed (j ∷ jobs) active,
)
