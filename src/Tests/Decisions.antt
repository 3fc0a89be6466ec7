-- ===== src/Tests/Decisions.antt =====
-- The decisions on Jobs of src/jobs/job_state.rs and on conditions of src/status/conditions.rs,
-- applied to concrete ones.
use strimzi_backup_operator.Base.{
  ◌≡◌, refl, ◌↔◌, true, some, none, [], ◌∷◌, any, ◌&&◌, ◌||◌, all, is_empty,
}
use strimzi_backup_operator.Base.Int.{pos}
use strimzi_backup_operator.Crd.Status.{Condition}
use strimzi_backup_operator.JobState.{
  Job, job_succeeded, job_failed, succeeded, classify_jobs, should_create_backup_job,
}
use strimzi_backup_operator.JobState.Classify.{Describes, classify_jobs_iff}
use strimzi_backup_operator.JobState.Create.{
  is_active, should_create_backup_job-classify_jobs, triggered_stacks,
}
use strimzi_backup_operator.Status.{set_condition, find_condition}
use strimzi_backup_operator.Status.Laws.{stored, find_condition-set_condition}

abbrev pub done : Job
done = record {
  name = some "nightly-1";
  status = some (record {
    active = none;
    succeeded = some (pos 1);
    failed = none;
    start_time = some (pos 10);
    completion_time = some (pos 20);
    conditions = some [];
  });
}

abbrev pub running : Job
running = record {
  name = some "nightly-2";
  status = some (record {
    active = some (pos 1);
    succeeded = none;
    failed = none;
    start_time = some (pos 30);
    completion_time = none;
    conditions = none;
  });
}

abbrev pub broken : Job
broken = record {
  name = some "nightly-3";
  status = some (record {
    active = none;
    succeeded = none;
    failed = some (pos 4);
    start_time = some (pos 40);
    completion_time = none;
    conditions = some (record { type_ = "Failed"; status = "True" } ∷ []);
  });
}

active_running : any is_active (running ∷ done ∷ []) ≡ true
unfolding job_succeeded job_failed
active_running = refl

should_create_backup_job-classify_jobs_example :
    should_create_backup_job (classify_jobs (broken ∷ [])) true ≡ (
      is_empty (broken ∷ [])
      || (true && (any job_succeeded (broken ∷ []) || all job_failed (broken ∷ []))))
should_create_backup_job-classify_jobs_example =
    should_create_backup_job-classify_jobs (broken ∷ []) true

triggered_stacks_example :
    should_create_backup_job (classify_jobs (running ∷ done ∷ [])) true
    ≡ any job_succeeded (running ∷ done ∷ [])
triggered_stacks_example = triggered_stacks (running ∷ done ∷ []) active_running

classify_jobs_iff_example :
    (classify_jobs (running ∷ done ∷ []) ≡ succeeded "nightly-1")
    ↔ Describes (succeeded "nightly-1") (running ∷ done ∷ [])
classify_jobs_iff_example = classify_jobs_iff (running ∷ done ∷ []) (succeeded "nightly-1")

abbrev ready_then : Condition
ready_then = record {
  condition_type = "Ready";
  status = "False";
  reason = some "BackupRunning";
  message = none;
  last_transition_time = some (pos 5);
}

abbrev ready_now : Condition
ready_now = record {
  condition_type = "Ready";
  status = "False";
  reason = some "BackupFailed";
  message = some "Backup job nightly-3 failed";
  last_transition_time = some (pos 9);
}

find_condition-set_condition_example :
    find_condition (set_condition (ready_then ∷ []) ready_now) "Ready"
    ≡ some (stored (find_condition (ready_then ∷ []) "Ready") ready_now)
find_condition-set_condition_example =
    find_condition-set_condition (ready_then ∷ []) ready_now "Ready"
