-- ===== src/JobState/Classify.antt =====
-- `classify_jobs` of src/jobs/job_state.rs against a description of the four states.
use strimzi_backup_operator.Base.{
  ◌≡◌, refl, ◌↔◌, inl, inr, true, false, not, some, List, [], ◌∷◌, arith, any, subst, all, find,
  find-eq-none, find-eq_none_of_any, Option-cases, Bool-cases,
}
use strimzi_backup_operator.JobState.{
  Job, JobsState, no_jobs, in_progress, succeeded, failed, job_succeeded, job_failed, name_of,
  classify_unfinished, classify_jobs,
}

-- What each state says of the Jobs.
abbrev pub Describes : JobsState → List Job → Type 0
Describes no_jobs jobs = jobs ≡ []
Describes in_progress jobs =
    (any job_succeeded jobs ≡ false) × (any (λ j. not (job_failed j)) jobs ≡ true)
Describes (succeeded n) jobs = (j : Job) × (find job_succeeded jobs ≡ some j) × (name_of j ≡ n)
Describes (failed n) jobs =
    (any job_succeeded jobs ≡ false)
    × (all job_failed jobs ≡ true)
    × ((j : Job) × (rest : List Job) × (jobs ≡ j ∷ rest) × (name_of j ≡ n))

pub all-eq-not-any :
    (jobs : List Job) → all job_failed jobs ≡ not (any (λ j. not (job_failed j)) jobs)
all-eq-not-any [] = refl
all-eq-not-any (j ∷ jobs) = ground (arith, all-eq-not-any jobs)

unfinished-Describes :
    (jobs : List Job) → any job_succeeded jobs ≡ false → Describes (classify_unfinished jobs) jobs
unfolding classify_unfinished
unfinished-Describes [] h = refl
unfinished-Describes (j ∷ jobs) h = elim (Bool-cases (any (λ i. not (job_failed i)) (j ∷ jobs))) [
  | inl busy ↦ rw busy (h, busy)
  | inr idle ↦
      let f : job_failed j ≡ true = ground arith in
      let every : all job_failed (j ∷ jobs) ≡ true = rw (all-eq-not-any (j ∷ jobs), idle) in
      rw (idle, f) (h, every, (j, jobs, refl, refl))
]

-- The computed state describes the Jobs.
pub classify_jobs-Describes : (jobs : List Job) → Describes (classify_jobs jobs) jobs
unfolding classify_jobs
classify_jobs-Describes jobs = elim (Option-cases (find job_succeeded jobs)) [
  | inl e ↦ rw (e, Describes) (unfinished-Describes jobs (find-eq-none job_succeeded jobs e))
  | inr (j, e) ↦ rw (e, Describes) (j, e, refl)
]

Describes-classify_jobs :
    (s : JobsState) (jobs : List Job) → Describes s jobs → classify_jobs jobs ≡ s
unfolding classify_jobs classify_unfinished
Describes-classify_jobs no_jobs jobs h = rw h refl
Describes-classify_jobs in_progress jobs (none_done, busy) =
    rw (find-eq_none_of_any job_succeeded jobs none_done, busy, classify_jobs, classify_unfinished)
Describes-classify_jobs (succeeded n) jobs (j, e, q) = rw (e, q, classify_jobs)
Describes-classify_jobs (failed n) jobs (none_done, every, (j, rest, split, q)) =
    let idle : any (λ i. not (job_failed i)) jobs ≡ false = ground (arith, all-eq-not-any jobs) in
    rw (find-eq_none_of_any job_succeeded jobs none_done, idle, classify_jobs, classify_unfinished)
      (ground arith)

-- `classify_jobs` returns a state exactly if that state describes the Jobs: none exist; or a
-- succeeded one exists (the first is named); or none succeeded and one has not failed; or Jobs
-- exist, every one failed and none succeeded (the first is named).
pub classify_jobs_iff :
    (jobs : List Job) (s : JobsState) → (classify_jobs jobs ≡ s) ↔ Describes s jobs
classify_jobs_iff jobs s = (
  (λ e. subst (λ t. Describes t jobs) e (classify_jobs-Describes jobs)),
  Describes-classify_jobs s jobs,
)
