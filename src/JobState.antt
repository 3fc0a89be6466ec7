-- ===== src/JobState.antt =====
-- src/jobs/job_state.rs: the aggregate state of the Jobs of one resource, and whether another Job
-- may be created. `Job` has the fields of the Kubernetes type that the operator reads.
pub mod Classify
pub mod Create
use strimzi_backup_operator.Base.{
  String, ◌==◌, Bool, true, false, not, ◌&&◌, ◌||◌, Option, none, some, List, [], ◌∷◌, any, find,
  is_some_and, unwrap_or, and_then, if◌then◌else◌,
}
use strimzi_backup_operator.Base.Int.{ℤ, pos, ltb_ℤ}
use strimzi_backup_operator.Crd.Status.{Time}

pub record JobCondition : Type 0 where
  pub type_ : String
  pub status : String

pub record JobStatus : Type 0 where
  pub active : Option ℤ
  pub succeeded : Option ℤ
  pub failed : Option ℤ
  pub start_time : Option Time
  pub completion_time : Option Time
  pub conditions : Option (List JobCondition)

pub record Job : Type 0 where
  pub name : Option String
  pub status : Option JobStatus

pub data JobsState : Type 0 where
  no_jobs in_progress : JobsState
  succeeded failed : (job_name : String) → JobsState

has_condition : Job → String → Bool
has_condition job condition_type =
    is_some_and (and_then job.status (λ s. s.conditions))
      λ conds. any (λ c. c.type_ == condition_type && c.status == "True") conds

unfoldable pub job_succeeded : Job → Bool
unfolding has_condition
job_succeeded job =
    is_some_and job.status
      λ status. ltb_ℤ (pos 0) (unwrap_or status.succeeded (pos 0)) || has_condition job "Complete"

unfoldable pub job_failed : Job → Bool
unfolding has_condition
job_failed job = has_condition job "Failed"

abbrev pub name_of : Job → String
name_of job = unwrap_or job.name ""

-- The two scans that are made when no Job succeeded.
classify_unfinished : List Job → JobsState
classify_unfinished jobs =
    if any (λ j. not (job_failed j)) jobs
    then in_progress
    else elim (find job_failed jobs) [ none ↦ no_jobs | some job ↦ failed (name_of job) ]

unfoldable pub classify_jobs : List Job → JobsState
unfolding classify_unfinished
classify_jobs jobs = elim (find job_succeeded jobs) [
  | some job ↦ succeeded (name_of job)
  | none ↦ classify_unfinished jobs
]

unfoldable pub should_create_restore_job : JobsState → Bool
should_create_restore_job no_jobs = true
should_create_restore_job _ = false

unfoldable pub should_create_backup_job : JobsState → Bool → Bool
should_create_backup_job in_progress manually_triggered = false
should_create_backup_job no_jobs manually_triggered = true
should_create_backup_job (succeeded _) manually_triggered = manually_triggered
should_create_backup_job (failed _) manually_triggered = manually_triggered
